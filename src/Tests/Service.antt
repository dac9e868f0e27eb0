-- ===== src/Tests/Service.antt =====
-- The service on the small cloud, from its start to its end.
use vcd_csi.Prelude.{ℕ, List, [], ◌∷◌, ◌≡◌, refl, true, false, Option, none, some, inl, inr}
use vcd_csi.Go.Error.{Error, new}
use vcd_csi.Go.Exec.{ok, err}
use vcd_csi.Go.Exec.Ensures.{Post}
use vcd_csi.Cloud.{Disk}
use vcd_csi.Vcd.State.{VcdClient, call}
use vcd_csi.Vcd.Trace as Cloud_trace
use vcd_csi.Mount.Trace as Host_trace
use vcd_csi.Csi.{VolumeCapability, single_node_writer, mount}
use vcd_csi.Service.Server.{
  Call, probe, create_volume, controller_publish_volume, node_stage_volume, snapshots, serve_grpc,
}
use vcd_csi.Service.Server.Laws.{Agrees, serve_driver, serve_grpc-serve_driver}
use vcd_csi.Service.Life.{
  Life, launched, no_results, return_run, http_result, signal, serve, close, shutdown,
  graceful_stop, end_grpc, end_http, join, leave, finish, fail_grpc, listening, stopping, serving,
  ended, finished, Reach, here, next,
}
use vcd_csi.Service.Life.Laws.{HasReturned, IsServing, Reach-finished, Reach-IsServing}
use vcd_csi.Service.Start.{CsiController, Outside, Service, assemble, launch}
use vcd_csi.Service.Start.Laws.{IsWired, launch-IsWired}
use vcd_csi.Service.Listen.{System, open_listeners}
use vcd_csi.Service.Listen.Laws.{traced, Opened, Failed, open_listeners-Opened}
use vcd_csi.Tests.Fixtures.{small_cloud, config, visit, host, listed_sets}

abbrev outside : Outside (Unit {0}) ℕ
outside = record {
  process = λ prefix. ok config;
  parse_request_uri = λ text. ok tt;
  parse_level = λ text. err (new "not a valid level");
  info_level = 4;
}

launch-IsWired_example :
    IsWired small_cloud host visit outside (launch small_cloud host visit outside [] tt)
launch-IsWired_example = launch-IsWired small_cloud host visit outside [] tt

abbrev capability : VolumeCapability
capability = record {
  access_mode = some single_node_writer;
  access_type = mount (record { fs_type = "xfs"; mount_flags = [] });
}

abbrev calls : List Call
calls =
    probe
    ∷ create_volume (record {
      name = "logs";
      capacity_range = none;
      volume_capabilities = capability ∷ [];
      parameters = ("vcd", "east") ∷ ("storageProfile", "fast") ∷ [];
    })
    ∷ controller_publish_volume (record {
      volume_id = "logs";
      node_id = "worker";
      volume_capability = some capability;
      readonly = false;
    })
    ∷ node_stage_volume (record {
      volume_id = "logs";
      staging_target_path = "/stage";
      volume_capability = some capability;
      publish_context = ("diskUnitNum", "9") ∷ ("diskSizeB", "5368709120") ∷ [];
    })
    ∷ snapshots
    ∷ []

-- The client that the small cloud gives.
abbrev client : VcdClient (Cloud_trace.Traced (List Disk))
client = record {
  locked = false;
  vdc_clients = ("east", 2) ∷ ("west", 2) ∷ [];
  cloud = record { events = []; world = [] };
}

abbrev service : Service (Cloud_trace.Traced (List Disk)) (Host_trace.Traced (Unit {0})) ℕ
service =
    assemble (Cloud_trace.traced small_cloud) (Host_trace.traced host) visit outside config client
      (record { events = []; inner = tt })

serve_grpc-serve_driver_example :
    Agrees service.vcl listed_sets service.mounter service.controller.drv
      (λ call. "method")
      calls
      []
      (serve_grpc service.vcl listed_sets service.mounter service.controller.drv
        (λ call. "method")
        calls
        (record { log = []; state = service.state }))
      (serve_driver service.vcl listed_sets service.mounter service.controller.drv calls
        service.state)
serve_grpc-serve_driver_example =
    serve_grpc-serve_driver service.vcl listed_sets service.mounter service.controller.drv
      (λ call. "method") calls (record { log = []; state = service.state })

abbrev os : System (Unit {0}) ℕ
os = record {
  parse = λ text. ok (record { scheme = "unix"; host = ""; path = "/csi.sock" });
  join = λ a b. b;
  from_slash = λ path. path;
  remove = λ path o. (err (new "no such file"), o);
  is_not_exist = λ e. true;
  listen = λ network addr o. (ok 3, o);
}

abbrev control : CsiController
control = record {
  c = config;
  drv = record { config = config; name = "csi"; version = ""; node_id = "worker" };
}

open_listeners-Opened_example :
    Post
      (λ l s. Opened os control l s.events)
      (λ s. Failed os control s.events)
      (open_listeners (traced os) control (record { events = []; inner = tt })).0
      (open_listeners (traced os) control (record { events = []; inner = tt })).1
open_listeners-Opened_example = open_listeners-Opened os control tt

-- The oldest error among the results.
abbrev wait : List (Option Error) → Option Error
wait [] = none
wait (none ∷ results) = wait results
wait (some e ∷ results) = elim (wait results) [ none ↦ some e | some e' ↦ some e' ]

-- The state when a server has ended and no signal has come.
abbrev half_up : Life
half_up = record launched {
  runner =
      serving (record no_results { grpc = true; results = some (new "listener is broken") ∷ [] });
}

abbrev up : Life
up = record launched { runner = serving no_results }

abbrev rise : Reach wait launched up
rise = next here refl tt (inl (serve refl refl))

abbrev fall : Reach wait up half_up
fall = next here refl tt (inr (fail_grpc no_results (new "listener is broken") refl refl refl))

Reach-IsServing_example : IsServing half_up.runner × (half_up.main ≡ listening)
Reach-IsServing_example = Reach-IsServing wait rise tt fall refl

abbrev stopped : Life
stopped = record up { main = stopping; cancelled = true }

abbrev down : Life
down = record { main = finished; cancelled = true; pending = 0; runner = ended; crashed = false }

abbrev whole : Reach wait launched down
unfolding return_run http_result
whole =
    next
      (next
        (next
          (next
            (next
              (next
                (next
                  (next (next rise refl tt (inl (signal refl refl))) refl tt
                    (inl (close _ refl refl refl refl)))
                  refl tt (inl (graceful_stop _ refl refl refl refl)))
                refl tt (inl (end_grpc _ refl refl refl refl)))
              refl tt (inl (shutdown _ none refl refl refl refl)))
            refl tt (inl (end_http _ refl refl refl refl)))
          refl tt (inl (join _ refl refl refl refl refl)))
        refl tt (inl (leave refl refl)))
      refl tt (inl (finish refl refl refl))

Reach-finished_example : (down.cancelled ≡ true) × HasReturned down.runner
Reach-finished_example = Reach-finished wait whole refl
