-- ===== src/Tests/Fixtures.antt =====
-- A small cloud, whose state is the list of its disks, and a small host.
use vcd_csi.Prelude.{String, List, [], ◌∷◌, true, false, none, some, keep, ◌==◌}
use mathlib.Core.List.Permᴰ
use vcd_csi.Go.Int.{pos}
use vcd_csi.Go.Error.{Error, external}
use vcd_csi.Go.Exec.{Result, ok, err, returned}
use vcd_csi.Config.{ControllerConfig}
use vcd_csi.Cloud.{Cloud, Disk, Vm}
use vcd_csi.Mount.Host.{Host, present, succeeded}
use vcd_csi.Driver.State.{Mounter}
use vcd_csi.Driver.Capabilities.{StringSets}
use vcd_csi.Vcd.State.{VcdClient}
use vcd_csi.Vcd.Units.Laws.{IsOrder}
use vcd_csi.Vcd.Service.{Visit}
use vcd_csi.Vcd.Trace.{Traced}

abbrev pub no_entity : Error
no_entity = external true "entity not found"

-- The answer to a lookup by name.
abbrev pub named : List Disk → Result (List Disk)
named [] = err no_entity
named (disk ∷ disks) = ok (disk ∷ disks)

-- A machine with a disk at unit 8 of the controller 1.
abbrev pub worker : Vm
worker = record {
  name = "worker";
  href = "vm/1";
  disk_settings =
      some (record {
        disk = some (record { mime = "disk"; name = "data"; href = "disk/data" });
        bus_number = pos 1;
        unit_number = pos 8;
      })
      ∷ [];
}

abbrev pub small_cloud : Cloud (List Disk)
small_cloud = record {
  mime_disk = "disk";
  mime_vapp = "vapp";
  get_auth_response = λ c w. (ok 401, w);
  authenticate = λ c w. (ok tt, w);
  get_org = λ o w. (ok 1, w);
  get_vdc_by_name = λ o n r w. (ok 2, w);
  refresh = λ v w. (ok tt, w);
  resource_entities = λ v w. (record { mime = "vapp"; name = "app"; href = "vapp/1" } ∷ []) ∷ [];
  get_disk_by_href = λ v h w. (err no_entity, w);
  get_disks_by_name = λ v n r w. (named (keep (λ d. d.name == n) w), w);
  find_storage_profile_reference =
      λ v p w. (ok (record { mime = "profile"; name = p; href = "profile/1" }), w);
  create_disk = λ v p w. (
    (3, none),
    record { mime = "disk"; name = p.name; href = "disk/new"; size_mb = p.size_mb } ∷ w,
  );
  wait_task_completion = λ t w. (ok tt, w);
  attached_vm = λ d w. (ok none, w);
  delete_disk = λ d w. (ok 3, []);
  update_disk = λ d n s w. (ok 3, w);
  get_vapp_by_name = λ v n r w. (ok 4, w);
  get_vm_by_name = λ v n r w. (ok worker, w);
  attach_disk = λ v p w. (ok 3, w);
  detach_disk = λ v p w. (ok 3, w);
}

abbrev pub config : ControllerConfig
config = record {
  http_listen = "0.0.0.0:8155";
  unix_socket = "unix:///csi.sock";
  controller_name = "csi";
  node_name = "worker";
  node_vdc = "east";
  vdcs = "east" ∷ "west" ∷ [];
  default_sub_bus_type = "VirtualSCSI";
  default_bus_type = "6";
  default_bus_num = pos 1;
  log_level = "";
  cloud_credentials = record {
    user = "u";
    password = "p";
    org = "o";
    href = "h";
    insecure = false;
  };
}

abbrev pub visit : Visit
visit = record { clients = λ clients. clients; units = λ units. units }

pub visit-IsOrder : IsOrder visit.units
visit-IsOrder units = Permᴰ.refl units

abbrev pub idle : VcdClient (Traced (List Disk))
idle = record { locked = false; vdc_clients = []; cloud = record { events = []; world = [] } }

abbrev pub plain : VcdClient (List Disk)
plain = record { locked = false; vdc_clients = ("east", 2) ∷ []; cloud = [] }

-- A host on which every command succeeds without a word.
abbrev pub host : Host (Unit {0})
host = record {
  look_path = λ cmd h. (present, h);
  combined_output = λ cmd args h. (record { out = ""; failure = none }, h);
  run = λ cmd args h. (succeeded, h);
  dir = λ path. path;
  mkdir_all = λ path perm h. (ok tt, h);
  create_file = λ path perm h. (ok tt, h);
  stat = λ path h. (ok 0, h);
  statfs = λ path h. (err no_entity, h);
  block = λ h. (ok [], h);
  unmarshal = λ text. ok none;
}

-- A mounter that finds the disk at a device that is neither formatted nor mounted.
abbrev pub mounter : Mounter (Unit {0})
mounter = record {
  format = λ source fs_type h. (returned (ok tt), h);
  mount = λ source target fs_type opts h. (returned (ok tt), h);
  unmount = λ target h. (returned (ok tt), h);
  is_formatted = λ source h. (returned (ok false), h);
  is_mounted = λ target h. (returned (ok false), h);
  get_statistics = λ path h. (returned (err no_entity), h);
  is_block_device = λ path h. (returned (ok false), h);
  get_disk_unit = λ size unit bus h. (returned (ok "/dev/sdb"), h);
}

-- The set as the list of what was inserted.
abbrev pub listed_sets : StringSets (List String)
listed_sets = record { new_string = []; insert = λ x s. x ∷ s; list = λ s. s }
