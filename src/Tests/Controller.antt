-- ===== src/Tests/Controller.antt =====
-- The controller's methods over a service that answers in a fixed way.
use vcd_csi.Prelude.{[], ◌∷◌, false, some, ◌≡◌, ◌≢◌, ◌↔◌, refl, inl, All}
use vcd_csi.Prelude.Dict.{lookup}
use vcd_csi.Go.Int.{pos}
use vcd_csi.Go.Error.{status, new, internal, disk_attached_to_vm}
use vcd_csi.Go.Exec.{ok, err, returned, panicked, ◌>>=◌}
use vcd_csi.StorageSize.{new_storage_size, bytes}
use vcd_csi.Locker.{is_locked}
use vcd_csi.Locker.Laws.{holds}
use vcd_csi.Csi.{
  VolumeCapability, CreateVolumeRequest, ControllerPublishVolumeRequest,
  ControllerExpandVolumeRequest, single_node_writer, block, Volume,
}
use vcd_csi.Driver.State.{VcdService, State, invalid, reject, on_vcl}
use vcd_csi.Driver.Capacity.{extract_storage, extract_range}
use vcd_csi.Driver.Capabilities.{validate_capabilities}
use vcd_csi.Driver.Create.{create_volume}
use vcd_csi.Driver.Create.Laws.{Answered, IsError, create_volume-Asks, create_volume-IsRejected}
use vcd_csi.Driver.Publish.{controller_publish_volume, lock_is_locked}
use vcd_csi.Driver.Publish.Laws.{node_stage_volume-controller_publish_volume}
use vcd_csi.Driver.Expand.{controller_expand_volume, find_volume}
use vcd_csi.Driver.Expand.Laws.{
  Expanded, controller_expand_volume-Expanded, controller_expand_volume_unlisted,
  controller_publish_volume-controller_expand_volume,
}
use vcd_csi.Driver.Node.{node_stage_volume}
use vcd_csi.Prelude.{List}
use vcd_csi.Cloud.{Cloud, Disk}
use vcd_csi.Vcd.State.{VcdClient}
use vcd_csi.Vcd.Service.{VolumeWithCap}
use vcd_csi.Vcd.Trace.{listed, Traced, traced}
use vcd_csi.Driver.Client.{vcd_service}
use vcd_csi.Driver.Create.Again.{create_volume-Has}
use vcd_csi.Tests.Fixtures.{listed_sets, mounter, small_cloud, config, visit}

-- A service with one volume of 5 GiB, which a machine holds.
abbrev service : VcdService (Unit {0})
service = record {
  create_disk = λ vdc name profile size s. (returned (ok tt), s);
  list_volumes = λ s. (
    returned (
        ok (record { name = "data"; cap = record { b = pos 5368709120 }; vdc_name = "east" } ∷ [])),
    s,
  );
  delete_disk = λ name s. (returned (ok tt), s);
  detach_disk = λ vm name s. (returned (ok tt), s);
  attach_disk = λ vm name s.
      (returned (ok (record { name = name; path = "9"; size = record { b = pos 5368709120 } })), s);
  resize_disk = λ vdc name size s. (returned (err disk_attached_to_vm), s);
}

abbrev start : State (Unit {0}) (Unit {0})
start = record { vcl = tt; lock = record { storage = [] }; host = tt }

abbrev capability : VolumeCapability
capability = record { access_mode = some single_node_writer; access_type = block }

abbrev creation : CreateVolumeRequest
creation = record {
  name = "data";
  capacity_range = some (record { required_bytes = pos 5368709120; limit_bytes = pos 0 });
  volume_capabilities = capability ∷ [];
  parameters = ("vcd", "east") ∷ ("storageProfile", "fast") ∷ [];
}

-- 5 GiB in the zone "east".
abbrev created : Volume
created = record {
  volume_id = "data";
  capacity_bytes = pos 5368709120;
  accessible_topology = (("failure-domain.beta.kubernetes.io/zone", "east") ∷ []) ∷ [];
}

create_volume-Asks_example :
    Answered created (returned (ok tt)) (create_volume service listed_sets creation start).0
    × ((create_volume service listed_sets creation start).1 ≡ start)
unfolding lookup extract_storage extract_range new_storage_size validate_capabilities bytes
create_volume-Asks_example =
    create_volume-Asks service listed_sets creation "east" "fast" (record { b = pos 5368709120 })
      start (λ e. cc, refl, refl, refl, refl, refl)

create_volume-IsRejected_example :
    IsError (create_volume service listed_sets (record creation { name = "" }) start).0
    × ((create_volume service listed_sets (record creation { name = "" }) start).1 ≡ start)
create_volume-IsRejected_example =
    create_volume-IsRejected service listed_sets (record creation { name = "" }) start (inl refl)

abbrev expansion : ControllerExpandVolumeRequest
expansion = record {
  volume_id = "data";
  capacity_range = some (record { required_bytes = pos 6442450944; limit_bytes = pos 0 });
  volume_capability = some capability;
}

abbrev publication : ControllerPublishVolumeRequest
publication = record {
  volume_id = "data";
  node_id = "worker";
  volume_capability = some capability;
  readonly = false;
}

controller_expand_volume-Expanded_example :
    Expanded expansion (controller_expand_volume service expansion start).0
controller_expand_volume-Expanded_example =
    controller_expand_volume-Expanded service expansion start

controller_expand_volume_unlisted_example :
    ((controller_expand_volume service (record expansion { volume_id = "logs" }) start).0
      ≡ panicked)
    ↔ All {A = VolumeWithCap}
        (λ volume. volume.name ≢ "logs")
        (record { name = "data"; cap = record { b = pos 5368709120 }; vdc_name = "east" } ∷ [])
unfolding extract_storage extract_range new_storage_size
controller_expand_volume_unlisted_example =
    controller_expand_volume_unlisted service (record expansion { volume_id = "logs" })
      (record { required_bytes = pos 6442450944; limit_bytes = pos 0 })
      (record { b = pos 6442450944 }) start _ tt refl (λ e. cc) refl refl (λ vcd e. cc)

controller_publish_volume-controller_expand_volume_example :
    let after =
      controller_publish_volume service publication
        (controller_expand_volume service expansion start).1 in
    (after.0 ≡ returned (err (status internal (new "Resize required for volume, not publishing"))))
    × (after.1.vcl ≡ tt)
    × (holds "data" after.1.lock ≡ false)
unfolding extract_storage extract_range new_storage_size find_volume bytes
controller_publish_volume-controller_expand_volume_example =
    controller_publish_volume-controller_expand_volume service expansion
      (record { required_bytes = pos 6442450944; limit_bytes = pos 0 })
      (record { b = pos 6442450944 }) start _
      (record { name = "data"; cap = record { b = pos 5368709120 }; vdc_name = "east" }) tt tt
      publication refl (λ e. cc) refl refl refl refl refl refl (λ e. cc) refl refl

-- The context of the publication, at the node.
node_stage_volume-controller_publish_volume_example :
    node_stage_volume mounter
      (record {
        volume_id = "data";
        staging_target_path = "/stage";
        volume_capability = some capability;
        publish_context = ("diskUnitNum", "9") ∷ [];
      })
      start
    ≡ (returned (err (invalid "Publish context diskSizeB must be provided")), start)
unfolding controller_publish_volume lock_is_locked lookup is_locked reject on_vcl ◌>>=◌
node_stage_volume-controller_publish_volume_example =
    node_stage_volume-controller_publish_volume service mounter publication start
      (("diskUnitNum", "9") ∷ []) "data" "/stage" capability start refl (λ e. cc) (λ e. cc)

-- A disk of one megabyte, whose name is asked for with 5 GiB.
abbrev small_disk : Disk
small_disk = record { mime = "disk"; name = "data"; href = "disk/data"; size_mb = pos 1 }

abbrev settled_cloud : Cloud (List Disk)
settled_cloud = record small_cloud {
  get_auth_response = λ c w. (ok 200, w);
  get_disks_by_name = λ v n r w. (ok (small_disk ∷ []), w);
}

abbrev settled : State (VcdClient (Traced (List Disk))) (Unit {0})
settled = record {
  vcl = record {
    locked = false;
    vdc_clients = ("east", 2) ∷ [];
    cloud = record { events = []; world = small_disk ∷ [] };
  };
  lock = record { storage = [] };
  host = tt;
}

create_volume-Has_example :
    ((create_volume
        (vcd_service (traced settled_cloud) config visit)
        listed_sets
        creation
        settled).0
      ≡ returned (ok created))
    × ((create_volume
          (vcd_service (traced settled_cloud) config visit)
          listed_sets
          creation
          settled).1.vcl.cloud.events
        ≡ listed 2 "data" (ok (small_disk ∷ [])) ∷ [])
unfolding lookup extract_storage extract_range new_storage_size validate_capabilities bytes
create_volume-Has_example =
    create_volume-Has settled_cloud config visit listed_sets creation "east" "fast"
      (record { b = pos 5368709120 }) 2 (small_disk ∷ []) settled
      (λ e. cc, refl, refl, refl, refl, refl) refl refl
      (record {
        code = 200;
        fresh = refl;
        authorized = λ w. refl;
        reached = λ w. refl;
        found = λ w. refl;
      })
