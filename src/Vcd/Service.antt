-- ===== src/Vcd/Service.antt =====
-- The public methods of the client. Each takes the mutex and refreshes the authentication; `visit`
-- is the order in which the runtime ranges over a map.
pub mod Laws
use vcd_csi.Prelude.{String, List, [], ◌∷◌, ◌++◌, Option, none, some, ◌==◌, ◌<>◌, if◌then◌else◌}
use vcd_csi.Prelude.Dict.{Dict, lookup}
use vcd_csi.Go.Error.{new, is_vm_not_found, is_entity_not_found, vm_not_found, disk_attached_to_vm}
use vcd_csi.Go.Exec.{ok, err, Exec, pure, raise, gets, attempt, ◌>>=◌, ◌>>◌}
use vcd_csi.StorageSize.{StorageSize, new_storage_size_from_mb, mb}
use vcd_csi.Config.{ControllerConfig}
use vcd_csi.Cloud.{Cloud, Handle, ResourceEntity, Reference, Disk, DiskCreateParams}
use vcd_csi.Vcd.State.{VcdClient, call, with_mutex, refresh_auth}
use vcd_csi.Vcd.Units.{Units}
use vcd_csi.Vcd.Find.{entities, get_vm_by_name, get_disk_by_name, disks_exists}
use vcd_csi.Vcd.Detach.{detach_disk}
use vcd_csi.Vcd.Attach.{DiskAttachParams, attach_found}

-- `VolumeWithCap`
pub record VolumeWithCap : Type 0 where
  pub name : String
  pub cap : StorageSize
  pub vdc_name : String

-- The orders in which the runtime ranges over the client's two kinds of map.
pub record Visit : Type 0 where
  pub clients : Dict Handle → Dict Handle
  pub units : Units → Units

module _ {W : Type 0} (cloud : Cloud W) (c : ControllerConfig) where
  -- `v.mt.Lock()`, `defer v.mt.Unlock()` and `v.refreshAuth()`
  unfoldable pub method : {A : Type 0} → Exec (VcdClient W) A → Exec (VcdClient W) A
  method m = with_mutex (do refresh_auth cloud c; m)

  unfoldable pub clients_in : Visit → Exec (VcdClient W) (Dict Handle)
  clients_in visit = gets (λ s. visit.clients s.vdc_clients)

  -- The loop over the entities of one data centre appends the disks to `resp`.
  unfoldable pub list_entities :
      String
      → Handle
      → List ResourceEntity
      → List VolumeWithCap
      → Exec (VcdClient W) (List VolumeWithCap)
  list_entities vdc_name vcd [] resp = pure resp
  list_entities vdc_name vcd (obj ∷ rest) resp =
      let next = list_entities vdc_name vcd rest in
      if obj.mime == cloud.mime_disk
      then (do
        d ← call (cloud.get_disk_by_href vcd obj.href)
        next (
            resp
            ++ record {
              name = obj.name;
              cap = new_storage_size_from_mb d.size_mb;
              vdc_name = vdc_name;
            }
              ∷ []))
      else next resp

  unfoldable pub list_clients :
      Dict Handle → List VolumeWithCap → Exec (VcdClient W) (List VolumeWithCap)
  list_clients [] resp = pure resp
  list_clients ((vdc_name, vcd) ∷ rest) resp = do
    call (cloud.refresh vcd)
    objs ← entities cloud vcd
    resp' ← list_entities vdc_name vcd objs resp
    list_clients rest resp'

  unfoldable pub list_volumes : Visit → Exec (VcdClient W) (List VolumeWithCap)
  list_volumes visit = method (do clients ← clients_in visit; list_clients clients [])

  abbrev pub creation : String → StorageSize → Reference → DiskCreateParams
  creation disk_name capacity storage_profile = record {
    name = disk_name;
    size_mb = mb capacity;
    storage_profile = storage_profile;
    bus_type = c.default_bus_type;
    bus_sub_type = c.default_sub_bus_type;
  }

  -- An error of `CreateDisk` is logged, and the task that comes back beside it is waited for.
  unfoldable pub create_task : Handle → DiskCreateParams → Exec (VcdClient W) Handle
  create_task client params s =
      let ((task, ignored), w) = cloud.create_disk client params s.cloud in
      pure task (record s { cloud = w })

  unfoldable pub create_absent :
      Handle → String → String → StorageSize → Exec (VcdClient W) (Unit {0})
  create_absent client disk_name profile capacity = do
    storage_reference ← call (cloud.find_storage_profile_reference client profile)
    task ← create_task client (creation disk_name capacity storage_reference)
    call (cloud.wait_task_completion task)

  unfoldable pub create_in :
      Option Handle → String → String → String → StorageSize → Exec (VcdClient W) (Unit {0})
  create_in none vdc_name disk_name profile capacity =
      raise (new ("vdcName not found: " <> vdc_name))
  create_in (some client) vdc_name disk_name profile capacity = do
    call (cloud.refresh client)
    exists ← disks_exists cloud client disk_name
    if exists then pure tt else create_absent client disk_name profile capacity

  unfoldable pub create_disk :
      String → String → String → StorageSize → Exec (VcdClient W) (Unit {0})
  create_disk vdc_name disk_name profile capacity = method (do
    client ← gets (λ s. lookup vdc_name s.vdc_clients)
    create_in client vdc_name disk_name profile capacity)

  unfoldable pub detach_first : Handle → String → Option Reference → Exec (VcdClient W) (Unit {0})
  detach_first client disk_name none = pure tt
  detach_first client disk_name (some attached_vm) = detach_disk cloud client disk_name

  unfoldable pub delete_found : Handle → String → Disk → Exec (VcdClient W) (Unit {0})
  delete_found client disk_name disk = do
    vm_attach ← call (cloud.attached_vm disk)
    detach_first client disk_name vm_attach
    task ← call (cloud.delete_disk disk)
    call (cloud.wait_task_completion task)

  -- Any error of `getDiskByName` sends the loop on to the next data centre.
  unfoldable pub delete_from : String → Dict Handle → Exec (VcdClient W) (Unit {0})
  delete_from disk_name [] = pure tt
  delete_from disk_name ((vdc_name, client) ∷ rest) =
      let next = delete_from disk_name rest in
      do
        call (cloud.refresh client)
        found ← attempt (get_disk_by_name cloud client disk_name)
        elim found [ ok disk ↦ delete_found client disk_name disk | err e ↦ next ]

  unfoldable pub delete_disk : Visit → String → Exec (VcdClient W) (Unit {0})
  delete_disk visit disk_name =
      method (do clients ← clients_in visit; delete_from disk_name clients)

  unfoldable pub detach_from : String → Dict Handle → Exec (VcdClient W) (Unit {0})
  detach_from volume_name [] = pure tt
  detach_from volume_name ((vdc_name, client) ∷ rest) =
      let next = detach_from volume_name rest in
      do
        call (cloud.refresh client)
        detached ← attempt (detach_disk cloud client volume_name)
        elim detached [ ok _ ↦ pure tt | err e ↦ if is_entity_not_found e then next else raise e ]

  -- `DetachDisk`. The machine's name is only logged.
  unfoldable pub detach_volume : Visit → String → String → Exec (VcdClient W) (Unit {0})
  detach_volume visit vm volume_name =
      method (do clients ← clients_in visit; detach_from volume_name clients)

  unfoldable pub attach_from :
      Visit → String → String → Dict Handle → Exec (VcdClient W) DiskAttachParams
  attach_from visit vm disk [] = raise vm_not_found
  attach_from visit vm disk ((vdc_name, client) ∷ rest) =
      let next = attach_from visit vm disk rest in
      do
        call (cloud.refresh client)
        found ← attempt (get_vm_by_name cloud client vm)
        elim found [
          | ok vapp_vm ↦ attach_found cloud c visit.units client vapp_vm disk
          | err e ↦ if is_vm_not_found e then next else raise e
        ]

  unfoldable pub attach_disk : Visit → String → String → Exec (VcdClient W) DiskAttachParams
  attach_disk visit vm disk =
      method (do clients ← clients_in visit; attach_from visit vm disk clients)

  unfoldable pub resize_detached :
      Disk → StorageSize → Option Reference → Exec (VcdClient W) (Unit {0})
  resize_detached disk new_disk_size (some vm) = raise disk_attached_to_vm
  resize_detached disk new_disk_size none = do
    task ← call (cloud.update_disk disk disk.name (mb new_disk_size))
    call (cloud.wait_task_completion task)

  unfoldable pub resize_in : Option Handle → String → StorageSize → Exec (VcdClient W) (Unit {0})
  resize_in none disk_name new_disk_size = raise (new "vdc not exists")
  resize_in (some client) disk_name new_disk_size = do
    disk ← get_disk_by_name cloud client disk_name
    vm ← call (cloud.attached_vm disk)
    resize_detached disk new_disk_size vm

  unfoldable pub resize_disk : String → String → StorageSize → Exec (VcdClient W) (Unit {0})
  resize_disk vdc_name disk_name new_disk_size = method (do
    client ← gets (λ s. lookup vdc_name s.vdc_clients)
    resize_in client disk_name new_disk_size)
