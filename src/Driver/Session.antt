-- ===== src/Driver/Session.antt =====
-- A driver that serves any sequence of remote calls: every method of internal/driver that reaches the
-- client, the lock or the host. A call that fails leaves the state that it reached.
use vcd_csi.Prelude.{String, List, [], ◌∷◌}
use vcd_csi.Go.Exec.{Exec, ◌>>◌, pure}
use vcd_csi.Go.Exec.Runs.{Runs, Runs-then, Runs-pure}
use vcd_csi.Csi.{CreateVolumeRequest, ControllerPublishVolumeRequest, ControllerExpandVolumeRequest}
use vcd_csi.Driver.State.{VcdService, Mounter, State}
use vcd_csi.Driver.Capabilities.{StringSets}
use vcd_csi.Driver.Create.{create_volume, delete_volume, list_volumes}
use vcd_csi.Driver.Publish.{controller_publish_volume, controller_unpublish_volume}
use vcd_csi.Driver.Expand.{controller_expand_volume}
use vcd_csi.Driver.Runs.{
  RunsClient, create_volume-Runs, delete_volume-Runs, list_volumes-Runs,
  controller_publish_volume-Runs, controller_unpublish_volume-Runs, controller_expand_volume-Runs,
}
use vcd_csi.Driver.Node.Keeps.{KeepsHost}
use vcd_csi.Driver.Node.Session.{NodeRequest, node_after, node_after-keeps}

pub data ControllerRequest : Type 0 where
  create : CreateVolumeRequest → ControllerRequest
  delete : String → ControllerRequest
  list : ControllerRequest
  publish : ControllerPublishVolumeRequest → ControllerRequest
  unpublish : String → String → ControllerRequest
  expand : ControllerExpandVolumeRequest → ControllerRequest

pub data Request : Type 0 where
  controller : ControllerRequest → Request
  node : NodeRequest → Request

module _ {S M Set : Type 0} (vcl : VcdService S) (sets : StringSets Set) where
  -- The call, without its answer.
  unfoldable pub controller_call : ControllerRequest → Exec (State S M) (Unit {0})
  controller_call (create req) = create_volume vcl sets req >> pure tt
  controller_call (delete volume_id) = delete_volume vcl volume_id
  controller_call list = list_volumes vcl >> pure tt
  controller_call (publish req) = controller_publish_volume vcl req >> pure tt
  controller_call (unpublish volume_id node_id) = controller_unpublish_volume vcl volume_id node_id
  controller_call (expand req) = controller_expand_volume vcl req >> pure tt

  unfoldable pub driver_after : Mounter M → Request → State S M → State S M
  driver_after m (controller r) s = (controller_call r s).1
  driver_after m (node r) s = node_after m r s

  unfoldable pub driver_serve : Mounter M → List Request → State S M → State S M
  driver_serve m [] s = s
  driver_serve m (r ∷ requests) s = driver_serve m requests (driver_after m r s)

module _ {S M Set : Type 0} {P : State S M → Type 0} (vcl : VcdService S) (sets : StringSets Set)
    (h : RunsClient P vcl) where
  -- What the calls of the client keep, each method keeps, and it does not block if they do not.
  pub controller_call-Runs : (r : ControllerRequest) → Runs P (controller_call vcl sets r)
  unfolding controller_call
  controller_call-Runs (create req) =
      Runs-then _ _ (create_volume-Runs vcl h sets req) (Runs-pure tt)
  controller_call-Runs (delete volume_id) = delete_volume-Runs vcl h volume_id
  controller_call-Runs list = Runs-then _ _ (list_volumes-Runs vcl h) (Runs-pure tt)
  controller_call-Runs (publish req) =
      Runs-then _ _ (controller_publish_volume-Runs vcl h req) (Runs-pure tt)
  controller_call-Runs (unpublish volume_id node_id) =
      controller_unpublish_volume-Runs vcl h volume_id node_id
  controller_call-Runs (expand req) =
      Runs-then _ _ (controller_expand_volume-Runs vcl h req) (Runs-pure tt)

  driver_after-keeps :
      (m : Mounter M) (k : KeepsHost P m) (r : Request) (s : State S M)
      → P s
      → P (driver_after vcl sets m r s)
  unfolding driver_after
  driver_after-keeps m k (controller r) s p = (controller_call-Runs r).keeps s p
  driver_after-keeps m k (node r) s p = node_after-keeps m k r s p

  pub driver_serve-keeps :
      (m : Mounter M) (k : KeepsHost P m) (requests : List Request) (s : State S M)
      → P s
      → P (driver_serve vcl sets m requests s)
  unfolding driver_serve
  driver_serve-keeps m k [] s p = p
  driver_serve-keeps m k (r ∷ requests) s p =
      driver_serve-keeps m k requests _ (driver_after-keeps m k r s p)
