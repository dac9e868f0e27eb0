-- ===== src/Driver/Client.antt =====
-- The client behind the interface `VcdService`, with one order in which the runtime ranges over its
-- maps.
use vcd_csi.Config.{ControllerConfig}
use vcd_csi.Cloud.{Cloud}
use vcd_csi.Vcd.State.{VcdClient}
use vcd_csi.Vcd.Units.Laws.{IsOrder}
use vcd_csi.Vcd.Service
use vcd_csi.Vcd.Service.{Visit}
use vcd_csi.Vcd.Trace.{traced}
use vcd_csi.Vcd.Guard.Idle.{IsIdle}
use vcd_csi.Vcd.Guard.Create.{create_disk-Runs}
use vcd_csi.Vcd.Guard.Methods.{
  list_volumes-Runs, delete_disk-Runs, detach_volume-Runs, attach_disk-Runs, resize_disk-Runs,
}
use vcd_csi.Driver.State.{VcdService, Serves}

unfoldable pub vcd_service :
    {W : Type 0} → Cloud W → ControllerConfig → Visit → VcdService (VcdClient W)
vcd_service cloud c visit = record {
  create_disk = λ vdc name profile size. Service.create_disk cloud c vdc name profile size;
  list_volumes = Service.list_volumes cloud c visit;
  delete_disk = λ name. Service.delete_disk cloud c visit name;
  detach_disk = λ vm name. Service.detach_volume cloud c visit vm name;
  attach_disk = λ vm name. Service.attach_disk cloud c visit vm name;
  resize_disk = λ vdc name size. Service.resize_disk cloud c vdc name size;
}

-- From an idle state, each method of the client behind the driver's interface ends, by a value, an
-- error or a panic, without waiting for the mutex that it holds itself, and leaves the mutex free
-- and every recorded request with its guard before it, for any order in which the runtime ranges
-- over the units.
pub vcd_service-Serves :
    {W : Type 0} (cloud : Cloud W) (c : ControllerConfig) (visit : Visit)
    → IsOrder visit.units
    → Serves IsIdle (vcd_service (traced cloud) c visit)
unfolding vcd_service
vcd_service-Serves cloud c visit order = record {
  creates = create_disk-Runs cloud c;
  lists = list_volumes-Runs cloud c visit;
  deletes = delete_disk-Runs cloud c visit;
  detaches = detach_volume-Runs cloud c visit;
  attaches = λ vm name. attach_disk-Runs cloud c visit vm name order;
  resizes = resize_disk-Runs cloud c;
}
