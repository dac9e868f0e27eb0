-- ===== src/Vcd/Find.antt =====
-- The lookups of a virtual data centre: `getVMByName`, `getDiskByName` and `disksExists`.
use vcd_csi.Prelude.{String, List, [], ◌∷◌, Bool, true, false, flatten, length, ◌==◌, if◌then◌else◌}
use vcd_csi.Go.Int.{pos}
use vcd_csi.Go.Error.{vm_not_found, errorf, number, end, is_entity_not_found}
use vcd_csi.Go.Exec.{ok, err, Exec, pure, raise, gets, attempt, ◌>>=◌}
use vcd_csi.Cloud.{Cloud, Handle, ResourceEntity, Disk, Vm}
use vcd_csi.Vcd.State.{VcdClient, call}

module _ {W : Type 0} (cloud : Cloud W) where
  -- The entities that the last refresh of a data centre listed.
  unfoldable pub entities : Handle → Exec (VcdClient W) (List ResourceEntity)
  entities client = gets (λ s. flatten (cloud.resource_entities client s.cloud))

  -- The two loops over the entities, which end at the first machine of the name.
  unfoldable pub find_vm : Handle → String → List ResourceEntity → Exec (VcdClient W) Vm
  find_vm client vm [] = raise vm_not_found
  find_vm client vm (obj ∷ rest) =
      let next = find_vm client vm rest in
      if obj.mime == cloud.mime_vapp
      then (do
        vapp ← call (cloud.get_vapp_by_name client obj.name false)
        found ← attempt (call (cloud.get_vm_by_name vapp vm false))
        elim found [
          | ok vapp_vm ↦ pure vapp_vm
          | err e ↦ if is_entity_not_found e then next else raise e
        ])
      else next

  unfoldable pub get_vm_by_name : Handle → String → Exec (VcdClient W) Vm
  get_vm_by_name client vm = do objs ← entities client; find_vm client vm objs

  -- `len(*disks) != 1`
  unfoldable pub exactly_one : List Disk → Exec (VcdClient W) Disk
  exactly_one (disk ∷ []) = pure disk
  exactly_one disks = raise (
      errorf "disk count mismatch, we want excatly one, seems like collision, count: %d"
        (number (pos (length disks)) end))

  unfoldable pub get_disk_by_name : Handle → String → Exec (VcdClient W) Disk
  get_disk_by_name client disk_name = do
    disks ← call (cloud.get_disks_by_name client disk_name true)
    exactly_one disks

  unfoldable pub disks_exists : Handle → String → Exec (VcdClient W) Bool
  disks_exists client disk_name = do
    d ← attempt (call (cloud.get_disks_by_name client disk_name false))
    elim d [ ok _ ↦ pure true | err e ↦ if is_entity_not_found e then pure false else raise e ]
