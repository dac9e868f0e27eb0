-- ===== src/Tests/Goroutines.antt =====
-- Goroutines of the driver on the small cloud.
use vcd_csi.Prelude.{◌≡◌, ℕ, List, [], ◌∷◌, ◌++◌, refl, false, some, none, if◌then◌else◌, eqb}
use vcd_csi.Vcd.State.{VcdClient}
use vcd_csi.Vcd.Trace.{Traced}
use vcd_csi.Vcd.Guard.Idle.{IsIdle}
use vcd_csi.Vcd.Steps.Calls.{Onward}
use vcd_csi.Cloud.{Disk}
use vcd_csi.Csi.{VolumeCapability, single_node_writer, mount}
use vcd_csi.Mount.Handler.{new_mounter}
use vcd_csi.Driver.State.{Mounter, State}
use vcd_csi.Driver.Node.Session.{stage}
use vcd_csi.Driver.Session.{Request, create, list, controller, node}
use vcd_csi.Go.Exec.{ok, returned}
use vcd_csi.Driver.Node.Order as Host_order
use vcd_csi.Driver.Node.Order.{formatted, format_checked}
use vcd_csi.Driver.Threads.Format.{format_prog, interleave-format_prog}
use vcd_csi.Driver.Threads.{out, System, interleave, whole_interleave}
use vcd_csi.Driver.Threads.Sim.{Sim}
use vcd_csi.Driver.Threads.Requests.{start}
use vcd_csi.Driver.Threads.Laws.{Done, interleave-whole_interleave, interleave-Finished}
use vcd_csi.Tests.Fixtures.{small_cloud, config, visit, visit-IsOrder, host, listed_sets}

abbrev capability : VolumeCapability
capability = record {
  access_mode = some single_node_writer;
  access_type = mount (record { fs_type = "xfs"; mount_flags = [] });
}

abbrev creation : Request
creation = controller (
    create (record {
      name = "logs";
      capacity_range = none;
      volume_capabilities = capability ∷ [];
      parameters = ("vcd", "east") ∷ ("storageProfile", "fast") ∷ [];
    }))

abbrev staging : Request
staging = node (
    stage (record {
      volume_id = "logs";
      staging_target_path = "/stage";
      volume_capability = some capability;
      publish_context = ("diskUnitNum", "9") ∷ ("diskSizeB", "5368709120") ∷ [];
    }))

-- Two goroutines create the same disk, a third stages one, and the others list the disks.
abbrev requests : ℕ → Request
requests i =
    if eqb i 0
    then creation
    else if eqb i 1
    then creation
    else if eqb i 2
    then staging
    else controller list

abbrev client : VcdClient (Traced (List Disk))
client = record {
  locked = false;
  vdc_clients = ("east", 2) ∷ ("west", 2) ∷ [];
  cloud = record { events = []; world = [] };
}

abbrev state : State (VcdClient (Traced (List Disk))) (Unit {0})
state = record { vcl = client; lock = record { storage = [] }; host = tt }

abbrev client-IsIdle : IsIdle client
client-IsIdle = record { free = refl; guarded = tt }

abbrev schedule : List ℕ
schedule = 0 ∷ 1 ∷ 2 ∷ 0 ∷ 0 ∷ 1 ∷ 2 ∷ 3 ∷ 0 ∷ 0 ∷ 0 ∷ 2 ∷ []

abbrev begun : System (Traced (List Disk)) (Unit {0}) (Unit {0})
begun = start small_cloud config visit visit-IsOrder listed_sets (new_mounter host) requests state

interleave-whole_interleave_example :
    (schedule' : List ℕ) × Sim Onward (interleave schedule begun) (whole_interleave schedule' begun)
interleave-whole_interleave_example =
    interleave-whole_interleave small_cloud config visit visit-IsOrder listed_sets
      (new_mounter host) requests schedule state

interleave-Finished_example : (rest : List ℕ) × Done 2 (interleave (schedule ++ rest) begun)
interleave-Finished_example =
    interleave-Finished small_cloud config visit visit-IsOrder listed_sets (new_mounter host)
      requests schedule 2 state client-IsIdle

-- A mounter that finds no file system on any device.
abbrev blank : Mounter (Unit {0})
blank = record (new_mounter host) { is_formatted = λ source h. (returned (ok false), h) }

abbrev watched : State (VcdClient (List Disk)) (Host_order.Traced (Unit {0}))
watched = record {
  vcl = record { locked = false; vdc_clients = []; cloud = [] };
  lock = record { storage = [] };
  host = record { events = []; inner = tt };
}

interleave-format_prog_example :
    (interleave (0 ∷ 1 ∷ 0 ∷ 1 ∷ []) (record {
      state = watched;
      threads = λ i. out (format_prog (Host_order.traced blank) "/dev/sdb" "ext4");
    })).state.host.events
    ≡ formatted "/dev/sdb" "ext4"
      ∷ formatted "/dev/sdb" "ext4"
      ∷ format_checked "/dev/sdb" (returned (ok false))
      ∷ format_checked "/dev/sdb" (returned (ok false))
      ∷ []
interleave-format_prog_example =
    interleave-format_prog blank "/dev/sdb" "ext4" watched tt tt refl refl
