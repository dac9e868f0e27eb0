-- ===== src/Vcd/Guard/Attach.antt =====
-- `AttachDisk` of pkg/vcd-client/client.go, against the guards.
use vcd_csi.Prelude.{String, List, [], ◌∷◌, inl, inr, Option, none, some, ◌==◌, if◌then◌else◌}
use vcd_csi.Go.Int.{ℤ}
use vcd_csi.Go.Error.{Error, is_entity_not_found, disk_not_exists}
use vcd_csi.Go.Exec.{Result, ok, err, raise, ◌>>=◌}
use vcd_csi.Go.Exec.Runs.{
  Runs, Runs-pure, Runs-raise, Runs-panic, Runs-if, Runs-bind, Runs-option, Runs-attempt,
  Runs-attempt_bind, runs_rules,
}
use vcd_csi.Go.Exec.Ensures.{Runs-Ensures}
use vcd_csi.Config.{ControllerConfig}
use vcd_csi.Cloud.{Cloud, Handle, Reference, Disk, DiskSettings, Vm}
use vcd_csi.Vcd.State.{call}
use vcd_csi.Vcd.Units.{Units, get_free_unit_num}
use vcd_csi.Vcd.Units.Laws.{IsOrder, Picked, get_free_unit_num-Picked}
use vcd_csi.Vcd.Attach.{
  attachment, attach_to_vm, reattach, find_attached, attach_disk_to, attach_found,
}
use vcd_csi.Vcd.Trace.{attached, traced}
use vcd_csi.Vcd.Guard.{On, IsGuarded, TakesUnit}
use vcd_csi.Vcd.Guard.Calls.{wait-Runs, noted-Ensures, get_disk_by_name-Runs}
use vcd_csi.Vcd.Guard.Detach.{attached_vm-Runs, detach_disk-Runs}

module _ {W : Type 0} (cloud : Cloud W) (c : ControllerConfig) (visit : Units → Units) where
  module _ (order : IsOrder visit) where
    Picked-TakesUnit :
        (vm : Vm) (disk : Disk) (bus u : ℤ) (e : Option Error)
        → Picked vm bus (u, e)
        → TakesUnit vm (attachment disk bus u)
    Picked-TakesUnit vm disk bus u none p = inl p
    Picked-TakesUnit vm disk bus u (some e) p = inr (p.0, p.2)

    -- Whatever the search for a unit answers, the attach asks for what it found.
    attach_to_vm-Runs :
        (vm : Vm) (name : String) (disk : Disk)
        → Runs (On IsGuarded) (attach_to_vm (traced cloud) c visit vm name disk)
    unfolding attach_to_vm
    attach_to_vm-Runs vm name disk =
        Runs-bind _ _
          (Runs-Ensures (
            noted-Ensures _ _ (λ _. attached vm (attachment disk c.default_bus_num unit.0)) _
              (λ t a h. (takes, h)) (λ t e h. (takes, h))))
          λ task. Runs-bind _ _ (wait-Runs cloud task) (λ _. Runs-pure _)
      where
        unit : ℤ × Option Error
        unit = get_free_unit_num visit vm c.default_bus_num

        takes : TakesUnit vm (attachment disk c.default_bus_num unit.0)
        takes =
            Picked-TakesUnit vm disk c.default_bus_num unit.0 unit.1
              (get_free_unit_num-Picked visit vm c.default_bus_num order)

    reattach-Runs :
        (client : Handle) (vm : Vm) (name : String) (disk : Disk)
        → Runs (On IsGuarded) (reattach (traced cloud) c visit client vm name disk)
    unfolding reattach
    reattach-Runs client vm name disk =
        Runs-attempt_bind _ _ _ (detach_disk-Runs cloud client name)
          (λ _. attach_to_vm-Runs vm name disk) (λ e. Runs-raise _)

    find_attached-Runs :
        (client : Handle) (vm : Vm) (name : String) (disk : Disk)
        (settings : List (Option DiskSettings))
        → Runs (On IsGuarded) (find_attached (traced cloud) c visit client vm name disk settings)
    unfolding find_attached
    find_attached-Runs client vm name disk [] = reattach-Runs client vm name disk
    find_attached-Runs client vm name disk (none ∷ settings) = Runs-panic
    find_attached-Runs client vm name disk (some setting ∷ settings) =
        let next = find_attached-Runs client vm name disk settings in
        Runs-option setting.disk _ _ next
          λ d. Runs-if (d.href == disk.href) _ _ (λ _. Runs-pure _) (λ _. next)

    attach_disk_to-Runs :
        (client : Handle) (vm : Vm) (name : String) (disk : Disk) (o : Option Reference)
        → Runs (On IsGuarded) (attach_disk_to (traced cloud) c visit client vm name disk o)
    unfolding attach_disk_to
    attach_disk_to-Runs client vm name disk none = attach_to_vm-Runs vm name disk
    attach_disk_to-Runs client vm name disk (some r) =
        search (runs_rules, find_attached-Runs, reattach-Runs)

    pub attach_found-Runs :
        (client : Handle) (vm : Vm) (name : String)
        → Runs (On IsGuarded) (attach_found (traced cloud) c visit client vm name)
    unfolding attach_found
    attach_found-Runs client vm name =
        Runs-bind _ _ (Runs-attempt _ (get_disk_by_name-Runs cloud client name)) attached
      where
        attached :
            (found : Result Disk)
            → Runs (On IsGuarded) (elim found [
              | err e ↦ raise (if is_entity_not_found e then disk_not_exists else e)
              | ok disk ↦ do
                attached_vm ← call ((traced cloud).attached_vm disk)
                attach_disk_to (traced cloud) c visit client vm name disk attached_vm
            ])
        attached (ok disk) =
            Runs-bind _ _ (attached_vm-Runs cloud disk) (attach_disk_to-Runs client vm name disk)
        attached (err e) = Runs-raise _
