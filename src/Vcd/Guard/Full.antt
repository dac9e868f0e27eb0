-- ===== src/Vcd/Guard/Full.antt =====
-- An attach to a machine whose controller is full.
use vcd_csi.Prelude.{String, List, [], ◌∷◌, ◌≡◌, Option, none, some, arith}
use vcd_csi.Go.Int.{ℤ, pos}
use vcd_csi.Go.Error.{Error}
use vcd_csi.Go.Exec.{◌>>=◌}
use vcd_csi.Config.{ControllerConfig}
use vcd_csi.Cloud.{Cloud, Disk, Vm}
use vcd_csi.Vcd.State.{VcdClient, call}
use vcd_csi.Vcd.Units.{Units}
use vcd_csi.Vcd.Units.Laws.{IsOrder, IsFull, Picked, get_free_unit_num-Picked}
use vcd_csi.Vcd.Attach.{attachment, attach_to_vm}
use vcd_csi.Vcd.Trace.{Event, attached, waited, Traced, traced}

-- The events but the ends of waits for a task.
abbrev pub requested : List Event → List Event
requested [] = []
requested (waited task r ∷ t) = requested t
requested (e ∷ t) = e ∷ requested t

full_unit :
    (vm : Vm) (bus : ℤ) (answer : ℤ × Option Error)
    → IsFull vm bus
    → Picked vm bus answer
    → answer.0 ≡ pos 0
full_unit vm bus (u, none) full ((n, e, low, high), unused) =
    absurd (unused (rw e (full n low high)))
full_unit vm bus (u, some e) full p = p.0

-- If all units of the driver are in use on the machine's controller, the one request but waits for
-- a task that the cloud gets is to attach the disk at unit 0, whatever the cloud answers, for any
-- order in which the runtime ranges over the units.
pub attach_to_vm_full :
    {W : Type 0} (cloud : Cloud W) (c : ControllerConfig) (visit : Units → Units) (vm : Vm)
    (name : String) (disk : Disk) (s : VcdClient (Traced W))
    → IsOrder visit
    → IsFull vm c.default_bus_num
    → requested (attach_to_vm (traced cloud) c visit vm name disk s).1.cloud.events
      ≡ attached vm (attachment disk c.default_bus_num (pos 0)) ∷ requested s.cloud.events
unfolding attach_to_vm call ◌>>=◌
attach_to_vm_full cloud c visit vm name disk s order full = ground (
  arith,
  full_unit vm c.default_bus_num _ full (get_free_unit_num-Picked visit vm c.default_bus_num order),
)
