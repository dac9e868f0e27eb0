-- ===== src/Vcd/Session.antt =====
-- A client that serves any sequence of requests: the methods behind the interface `VcdService`, one
-- constructor each. A request that fails leaves the state that it reached.
use vcd_csi.Prelude.{String, List, [], ◌∷◌}
use vcd_csi.StorageSize.{StorageSize}
use vcd_csi.Config.{ControllerConfig}
use vcd_csi.Cloud.{Cloud}
use vcd_csi.Vcd.State.{VcdClient}
use vcd_csi.Vcd.Service.{
  Visit, list_volumes, create_disk, delete_disk, detach_volume, attach_disk, resize_disk,
}

pub data Request : Type 0 where
  create : String → String → String → StorageSize → Request
  list : Visit → Request
  delete : Visit → String → Request
  detach : Visit → String → String → Request
  attach : Visit → String → String → Request
  resize : String → String → StorageSize → Request

module _ {W : Type 0} (cloud : Cloud W) (c : ControllerConfig) where
  -- The state that a request leaves.
  unfoldable pub after : Request → VcdClient W → VcdClient W
  after (create vdc name profile size) s = (create_disk cloud c vdc name profile size s).1
  after (list visit) s = (list_volumes cloud c visit s).1
  after (delete visit name) s = (delete_disk cloud c visit name s).1
  after (detach visit vm name) s = (detach_volume cloud c visit vm name s).1
  after (attach visit vm name) s = (attach_disk cloud c visit vm name s).1
  after (resize vdc name size) s = (resize_disk cloud c vdc name size s).1

  unfoldable pub serve : List Request → VcdClient W → VcdClient W
  serve [] s = s
  serve (r ∷ requests) s = serve requests (after r s)
