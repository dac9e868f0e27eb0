-- ===== src/Vcd/Steps/Bodies.antt =====
-- The bodies of the methods of pkg/vcd-client/client.go in steps.
use vcd_csi.Prelude.{String, List, [], ◌∷◌, refl, Option, none, some, ◌==◌, if◌then◌else◌}
use vcd_csi.Prelude.Dict.{Dict}
use vcd_csi.Go.Error.{disk_not_exists, is_entity_not_found, is_vm_not_found}
use vcd_csi.Go.Exec.{◌>>=◌}
use vcd_csi.StorageSize.{StorageSize, mb}
use vcd_csi.Config.{ControllerConfig}
use vcd_csi.Cloud.{
  Cloud, Handle, ResourceEntity, Reference, Disk, DiskCreateParams, DiskSettings, Vm,
}
use vcd_csi.Vcd.Units.{Units, get_free_unit_num}
use vcd_csi.Vcd.Attach.{
  attachment, attach_to_vm, reattach, find_attached, attach_disk_to, attach_found,
}
use vcd_csi.Vcd.Service.{
  VolumeWithCap, Visit, list_entities, list_clients, creation, create_task, create_absent,
  create_in, detach_first, delete_found, delete_from, detach_from, attach_from, resize_detached,
  resize_in,
}
use vcd_csi.Vcd.Trace.{deleted, updated, asked, attached, created, waited, traced}
use vcd_csi.Vcd.Steps.{
  Cut-step, Cut-pure, Cut-raise, Cut-panic, Cut-if, Cut-bind, Cut-option, Cut-attempt_bind,
}
use vcd_csi.Vcd.Steps.Calls.{
  InSteps, silent-Cut, noted-Cut, entities-Cut, get_vm_by_name-Cut, get_disk_by_name-Cut,
  disks_exists-Cut, detach_disk-Cut,
}

module _ {W : Type 0} (cloud : Cloud W) (c : ControllerConfig) where
  list_entities-Cut :
      (vdc_name : String) (vcd : Handle) (objs : List ResourceEntity) (resp : List VolumeWithCap)
      → InSteps (list_entities (traced cloud) c vdc_name vcd objs resp)
  unfolding list_entities
  list_entities-Cut vdc_name vcd [] resp = Cut-pure resp
  list_entities-Cut vdc_name vcd (obj ∷ objs) resp =
      Cut-if (obj.mime == cloud.mime_disk) _ _
        (λ _. Cut-bind _ _ (silent-Cut _) λ d. list_entities-Cut vdc_name vcd objs _)
        (λ _. list_entities-Cut vdc_name vcd objs resp)

  pub list_clients-Cut :
      (clients : Dict Handle) (resp : List VolumeWithCap)
      → InSteps (list_clients (traced cloud) c clients resp)
  unfolding list_clients
  list_clients-Cut [] resp = Cut-pure resp
  list_clients-Cut ((vdc_name, vcd) ∷ clients) resp = Cut-bind _ _ (silent-Cut _) λ _.
      Cut-bind _ _ (entities-Cut cloud vcd) λ objs.
        Cut-bind _ _ (list_entities-Cut vdc_name vcd objs resp)
          λ resp'. list_clients-Cut clients resp'

  create_task-Cut :
      (client : Handle) (params : DiskCreateParams)
      → InSteps (create_task (traced cloud) c client params)
  unfolding create_task ◌>>=◌
  create_task-Cut client params =
      Cut-step _ (λ s. record { stays = λ h. h; more = (created client params ∷ [], refl) })

  create_absent-Cut :
      (client : Handle) (name profile : String) (capacity : StorageSize)
      → InSteps (create_absent (traced cloud) c client name profile capacity)
  unfolding create_absent
  create_absent-Cut client name profile capacity = Cut-bind _ _ (silent-Cut _) λ reference.
      Cut-bind _ _ (create_task-Cut client (creation (traced cloud) c name capacity reference))
        λ task. noted-Cut (waited task) _

  pub create_in-Cut :
      (client : Option Handle) (vdc_name name profile : String) (capacity : StorageSize)
      → InSteps (create_in (traced cloud) c client vdc_name name profile capacity)
  unfolding create_in
  create_in-Cut none vdc_name name profile capacity = Cut-raise _
  create_in-Cut (some client) vdc_name name profile capacity = Cut-bind _ _ (silent-Cut _) λ _.
      Cut-bind _ _ (disks_exists-Cut cloud client name) λ exists.
        Cut-if exists _ _ (λ _. Cut-pure tt) (λ _. create_absent-Cut client name profile capacity)

  detach_first-Cut :
      (client : Handle) (name : String) (vm : Option Reference)
      → InSteps (detach_first (traced cloud) c client name vm)
  unfolding detach_first
  detach_first-Cut client name none = Cut-pure tt
  detach_first-Cut client name (some vm) = detach_disk-Cut cloud client name

  delete_found-Cut :
      (client : Handle) (name : String) (disk : Disk)
      → InSteps (delete_found (traced cloud) c client name disk)
  unfolding delete_found
  delete_found-Cut client name disk = Cut-bind _ _ (noted-Cut (asked disk) _) λ vm.
      Cut-bind _ _ (detach_first-Cut client name vm)
        λ _. Cut-bind _ _ (noted-Cut (λ _. deleted disk) _) λ task. noted-Cut (waited task) _

  pub delete_from-Cut :
      (name : String) (clients : Dict Handle) → InSteps (delete_from (traced cloud) c name clients)
  unfolding delete_from
  delete_from-Cut name [] = Cut-pure tt
  delete_from-Cut name ((vdc_name, client) ∷ clients) = Cut-bind _ _ (silent-Cut _) λ _.
      Cut-attempt_bind _ _ _ (get_disk_by_name-Cut cloud client name)
        (λ disk. delete_found-Cut client name disk) (λ e. delete_from-Cut name clients)

  pub detach_from-Cut :
      (name : String) (clients : Dict Handle) → InSteps (detach_from (traced cloud) c name clients)
  unfolding detach_from
  detach_from-Cut name [] = Cut-pure tt
  detach_from-Cut name ((vdc_name, client) ∷ clients) = Cut-bind _ _ (silent-Cut _) λ _.
      Cut-attempt_bind _ _ _ (detach_disk-Cut cloud client name) (λ _. Cut-pure tt)
        (λ e.
          Cut-if (is_entity_not_found e) _ _ (λ _. detach_from-Cut name clients) (λ _. Cut-raise e))

  attach_to_vm-Cut :
      (visit : Units → Units) (vm : Vm) (name : String) (disk : Disk)
      → InSteps (attach_to_vm (traced cloud) c visit vm name disk)
  unfolding attach_to_vm
  attach_to_vm-Cut visit vm name disk =
      Cut-bind _ _
        (noted-Cut
          (λ _.
            attached vm
              (attachment disk c.default_bus_num (get_free_unit_num visit vm c.default_bus_num).0))
          _)
        λ task. Cut-bind _ _ (noted-Cut (waited task) _) λ _. Cut-pure _

  reattach-Cut :
      (visit : Units → Units) (client : Handle) (vm : Vm) (name : String) (disk : Disk)
      → InSteps (reattach (traced cloud) c visit client vm name disk)
  unfolding reattach
  reattach-Cut visit client vm name disk =
      Cut-attempt_bind _ _ _ (detach_disk-Cut cloud client name)
        (λ _. attach_to_vm-Cut visit vm name disk) (λ e. Cut-raise _)

  find_attached-Cut :
      (visit : Units → Units) (client : Handle) (vm : Vm) (name : String) (disk : Disk)
      (settings : List (Option DiskSettings))
      → InSteps (find_attached (traced cloud) c visit client vm name disk settings)
  unfolding find_attached
  find_attached-Cut visit client vm name disk [] = reattach-Cut visit client vm name disk
  find_attached-Cut visit client vm name disk (none ∷ settings) = Cut-panic
  find_attached-Cut visit client vm name disk (some setting ∷ settings) =
      Cut-option setting.disk _ _ (find_attached-Cut visit client vm name disk settings) λ d.
        Cut-if (d.href == disk.href) _ _ (λ _. Cut-pure _)
          (λ _. find_attached-Cut visit client vm name disk settings)

  attach_disk_to-Cut :
      (visit : Units → Units) (client : Handle) (vm : Vm) (name : String) (disk : Disk)
      (attached_vm : Option Reference)
      → InSteps (attach_disk_to (traced cloud) c visit client vm name disk attached_vm)
  unfolding attach_disk_to
  attach_disk_to-Cut visit client vm name disk none = attach_to_vm-Cut visit vm name disk
  attach_disk_to-Cut visit client vm name disk (some attached_vm) =
      Cut-if (vm.href == attached_vm.href) _ _
        (λ _. find_attached-Cut visit client vm name disk vm.disk_settings)
        (λ _. reattach-Cut visit client vm name disk)

  attach_found-Cut :
      (visit : Units → Units) (client : Handle) (vm : Vm) (name : String)
      → InSteps (attach_found (traced cloud) c visit client vm name)
  unfolding attach_found
  attach_found-Cut visit client vm name =
      Cut-attempt_bind _ _ _ (get_disk_by_name-Cut cloud client name)
        (λ disk.
          Cut-bind _ _ (noted-Cut (asked disk) (cloud.attached_vm disk))
            λ attached_vm. attach_disk_to-Cut visit client vm name disk attached_vm)
        (λ e. Cut-raise (if is_entity_not_found e then disk_not_exists else e))

  pub attach_from-Cut :
      (visit : Visit) (vm name : String) (clients : Dict Handle)
      → InSteps (attach_from (traced cloud) c visit vm name clients)
  unfolding attach_from
  attach_from-Cut visit vm name [] = Cut-raise _
  attach_from-Cut visit vm name ((vdc_name, client) ∷ clients) = Cut-bind _ _ (silent-Cut _) λ _.
      Cut-attempt_bind _ _ _ (get_vm_by_name-Cut cloud client vm)
        (λ vapp_vm. attach_found-Cut visit.units client vapp_vm name)
        (λ e.
          Cut-if (is_vm_not_found e) _ _ (λ _. attach_from-Cut visit vm name clients)
            (λ _. Cut-raise e))

  resize_detached-Cut :
      (disk : Disk) (size : StorageSize) (vm : Option Reference)
      → InSteps (resize_detached (traced cloud) c disk size vm)
  unfolding resize_detached
  resize_detached-Cut disk size (some vm) = Cut-raise _
  resize_detached-Cut disk size none =
      Cut-bind _ _ (noted-Cut (λ _. updated disk disk.name (mb size)) _)
        λ task. noted-Cut (waited task) _

  pub resize_in-Cut :
      (client : Option Handle) (name : String) (size : StorageSize)
      → InSteps (resize_in (traced cloud) c client name size)
  unfolding resize_in
  resize_in-Cut none name size = Cut-raise _
  resize_in-Cut (some client) name size =
      Cut-bind _ _ (get_disk_by_name-Cut cloud client name)
        λ disk. Cut-bind _ _ (noted-Cut (asked disk) _) λ vm. resize_detached-Cut disk size vm
