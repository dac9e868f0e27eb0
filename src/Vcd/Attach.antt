-- ===== src/Vcd/Attach.antt =====
-- `AttachDisk` within one data centre.
use vcd_csi.Prelude.{String, List, [], ◌∷◌, Option, none, some, ◌==◌, if◌then◌else◌}
use vcd_csi.Go.Int.{ℤ}
use vcd_csi.Go.Error.{is_entity_not_found, disk_not_exists, wrong_disk_attach}
use vcd_csi.Go.Exec.{ok, err, Exec, pure, raise, panic, attempt, ◌>>=◌, ◌>>◌}
use vcd_csi.StorageSize.{StorageSize, new_storage_size_from_mb}
use vcd_csi.Config.{ControllerConfig}
use vcd_csi.Cloud.{Cloud, Handle, Reference, Disk, DiskSettings, Vm, AttachParams}
use vcd_csi.Vcd.Text.{itoa}
use vcd_csi.Vcd.State.{VcdClient, call}
use vcd_csi.Vcd.Units.{Units, get_free_unit_num}
use vcd_csi.Vcd.Find.{get_disk_by_name}
use vcd_csi.Vcd.Detach.{detach_disk}

-- `DiskAttachParams`
pub record DiskAttachParams : Type 0 where
  pub name : String
  pub path : String
  pub size : StorageSize

unfoldable pub attach_params : String → ℤ → Disk → DiskAttachParams
attach_params name unit disk = record {
  name = name;
  path = itoa unit;
  size = new_storage_size_from_mb disk.size_mb;
}

-- What the cloud is asked for.
abbrev pub attachment : Disk → ℤ → ℤ → AttachParams
attachment disk bus unit = record {
  disk = record { mime = disk.mime; name = disk.name; href = disk.href };
  bus_number = bus;
  unit_number = unit;
}

module _ {W : Type 0} (cloud : Cloud W) (c : ControllerConfig) (visit : Units → Units) where
  -- The second result of `getFreeUnitNum` is overwritten before anything reads it.
  unfoldable pub attach_to_vm : Vm → String → Disk → Exec (VcdClient W) DiskAttachParams
  attach_to_vm vapp_vm name disk =
      let (unit_num, ignored) = get_free_unit_num visit vapp_vm c.default_bus_num in
      do
        task ← call (cloud.attach_disk vapp_vm (attachment disk c.default_bus_num unit_num))
        call (cloud.wait_task_completion task)
        pure (attach_params name unit_num disk)

  -- `ErrWrongDiskAttach` replaces whatever the detach failed with.
  unfoldable pub reattach : Handle → Vm → String → Disk → Exec (VcdClient W) DiskAttachParams
  reattach client vapp_vm name disk = do
    detached ← attempt (detach_disk cloud client name)
    elim detached [ ok _ ↦ attach_to_vm vapp_vm name disk | err _ ↦ raise wrong_disk_attach ]

  -- The loop over the settings of the right machine; a nil setting is dereferenced. Without a match
  -- the code goes on to detach the disk.
  unfoldable pub find_attached :
      Handle → Vm → String → Disk → List (Option DiskSettings) → Exec (VcdClient W) DiskAttachParams
  find_attached client vapp_vm name disk [] = reattach client vapp_vm name disk
  find_attached client vapp_vm name disk (none ∷ settings) = panic
  find_attached client vapp_vm name disk (some setting ∷ settings) =
      let next = find_attached client vapp_vm name disk settings in
      elim setting.disk [
        | none ↦ next
        | some d ↦
            if d.href == disk.href then pure (attach_params name setting.unit_number disk) else next
      ]

  unfoldable pub attach_disk_to :
      Handle → Vm → String → Disk → Option Reference → Exec (VcdClient W) DiskAttachParams
  attach_disk_to client vapp_vm name disk none = attach_to_vm vapp_vm name disk
  attach_disk_to client vapp_vm name disk (some attached_vm) =
      if vapp_vm.href == attached_vm.href
      then find_attached client vapp_vm name disk vapp_vm.disk_settings
      else reattach client vapp_vm name disk

  -- The rest of the method once the machine is found.
  unfoldable pub attach_found : Handle → Vm → String → Exec (VcdClient W) DiskAttachParams
  attach_found client vapp_vm name = do
    found ← attempt (get_disk_by_name cloud client name)
    elim found [
      | err e ↦ raise (if is_entity_not_found e then disk_not_exists else e)
      | ok disk ↦ do
        attached_vm ← call (cloud.attached_vm disk)
        attach_disk_to client vapp_vm name disk attached_vm
    ]
