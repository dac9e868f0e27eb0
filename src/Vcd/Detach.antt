-- ===== src/Vcd/Detach.antt =====
-- `detachDisk`: takes a disk off the machine that the cloud says it is attached to.
use vcd_csi.Prelude.{String, List, [], ◌∷◌, Option, none, some, ◌==◌, if◌then◌else◌}
use vcd_csi.Go.Exec.{Exec, pure, panic, ◌>>=◌}
use vcd_csi.Cloud.{Cloud, Handle, Reference, Disk, DiskSettings, Vm, AttachParams}
use vcd_csi.Vcd.State.{VcdClient, call}
use vcd_csi.Vcd.Find.{get_vm_by_name, get_disk_by_name}

-- A setting's own values are those that the cloud is asked to release.
abbrev pub release : Reference → DiskSettings → AttachParams
release disk setting = record {
  disk = disk;
  bus_number = setting.bus_number;
  unit_number = setting.unit_number;
}

module _ {W : Type 0} (cloud : Cloud W) where
  -- The loop over the machine's settings. A nil setting is dereferenced.
  unfoldable pub detach_setting :
      Disk → Vm → List (Option DiskSettings) → Exec (VcdClient W) (Unit {0})
  detach_setting disk vapp_vm [] = pure tt
  detach_setting disk vapp_vm (none ∷ settings) = panic
  detach_setting disk vapp_vm (some setting ∷ settings) =
      let next = detach_setting disk vapp_vm settings in
      elim setting.disk [
        | none ↦ next
        | some d ↦
            if d.href == disk.href
            then (do
              task ← call (cloud.detach_disk vapp_vm (release d setting))
              call (cloud.wait_task_completion task))
            else next
      ]

  unfoldable pub detach_from_vm : Handle → Disk → Option Reference → Exec (VcdClient W) (Unit {0})
  detach_from_vm client disk none = pure tt
  detach_from_vm client disk (some attached_vm) = do
    vapp_vm ← get_vm_by_name cloud client attached_vm.name
    detach_setting disk vapp_vm vapp_vm.disk_settings

  unfoldable pub detach_disk : Handle → String → Exec (VcdClient W) (Unit {0})
  detach_disk client volume_name = do
    disk ← get_disk_by_name cloud client volume_name
    attached_vm ← call (cloud.attached_vm disk)
    detach_from_vm client disk attached_vm
