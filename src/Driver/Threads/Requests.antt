-- ===== src/Driver/Threads/Requests.antt =====
-- The requests to internal/driver as goroutines: gRPC serves each request on a goroutine of its own.
use vcd_csi.Prelude.{ℕ}
use vcd_csi.Go.Exec.{Exec, pure, ◌>>◌}
use vcd_csi.Config.{ControllerConfig}
use vcd_csi.Cloud.{Cloud}
use vcd_csi.Vcd.State.{VcdClient}
use vcd_csi.Vcd.Units.Laws.{IsOrder}
use vcd_csi.Vcd.Service.{Visit}
use vcd_csi.Vcd.Trace.{Traced, traced}
use vcd_csi.Vcd.Guard.Idle.{IsIdle}
use vcd_csi.Vcd.Steps.Calls.{Onward}
use vcd_csi.Vcd.Steps.Methods.{
  list_volumes-Method, create_disk-Method, delete_disk-Method, detach_volume-Method,
  attach_disk-Method, resize_disk-Method,
}
use vcd_csi.Driver.State.{VcdService, Serves, Mounter, State}
use vcd_csi.Driver.Capabilities.{StringSets}
use vcd_csi.Driver.Client.{vcd_service, vcd_service-Serves}
use vcd_csi.Driver.Node.{
  node_stage_volume, node_unstage_volume, node_publish_volume, node_unpublish_volume,
  node_get_volume_stats,
}
use vcd_csi.Driver.Node.Session.{NodeRequest, stage, unstage, publish, unpublish, stats}
use vcd_csi.Driver.Session.{
  ControllerRequest, create, delete, list, expand, Request, controller, node, controller_call,
  driver_after,
}
use vcd_csi.Driver.Session
use vcd_csi.Driver.Threads.{out, System}
use vcd_csi.Driver.Threads.Impl.{Impl, Impl-then, Impl-pure}
use vcd_csi.Driver.Threads.Controller.{
  InSteps, create_volume-Impl, delete_volume-Impl, list_volumes-Impl,
  controller_publish_volume-Impl, controller_unpublish_volume-Impl, controller_expand_volume-Impl,
}
use vcd_csi.Driver.Threads.Node.{
  node_stage_volume-Impl, node_unstage_volume-Impl, node_publish_volume-Impl,
  node_unpublish_volume-Impl, node_get_volume_stats-Impl,
}

module _ {S M : Type 0} (m : Mounter M) where
  -- The call, without its answer.
  unfoldable pub node_call : NodeRequest → Exec (State S M) (Unit {0})
  node_call (stage req) = node_stage_volume m req
  node_call (unstage volume_id path) = node_unstage_volume m volume_id path
  node_call (publish req) = node_publish_volume m req
  node_call (unpublish volume_id path) = node_unpublish_volume m volume_id path
  node_call (stats volume_id path) = node_get_volume_stats m volume_id path >> pure tt

module _ {S M Set : Type 0} (vcl : VcdService S) (sets : StringSets Set) (m : Mounter M) where
  unfoldable pub driver_call : Request → Exec (State S M) (Unit {0})
  driver_call (controller r) = controller_call vcl sets r
  driver_call (node r) = node_call m r

module _ {W M Set : Type 0} (cloud : Cloud W) (c : ControllerConfig) (visit : Visit)
    (order : IsOrder visit.units) (sets : StringSets Set) (m : Mounter M) where
  vcd_service-InSteps : InSteps Onward (vcd_service (traced cloud) c visit)
  unfolding vcd_service
  vcd_service-InSteps = record {
    creates = create_disk-Method cloud c;
    lists = list_volumes-Method cloud c visit;
    deletes = delete_disk-Method cloud c visit;
    detaches = detach_volume-Method cloud c visit;
    attaches = attach_disk-Method cloud c visit;
    resizes = resize_disk-Method cloud c;
  }

  abbrev serves : Serves IsIdle (vcd_service (traced cloud) c visit)
  serves = vcd_service-Serves cloud c visit order

  controller_call-Impl :
      (r : ControllerRequest)
      → Impl {M = M} Onward IsIdle (controller_call (vcd_service (traced cloud) c visit) sets r)
  unfolding controller_call
  controller_call-Impl (create req) =
      Impl-then _ _ (create_volume-Impl _ vcd_service-InSteps serves sets req) (Impl-pure tt)
  controller_call-Impl (delete volume_id) =
      delete_volume-Impl _ vcd_service-InSteps serves volume_id
  controller_call-Impl list =
      Impl-then _ _ (list_volumes-Impl _ vcd_service-InSteps serves) (Impl-pure tt)
  controller_call-Impl (Session.publish req) =
      Impl-then _ _ (controller_publish_volume-Impl _ vcd_service-InSteps serves req) (Impl-pure tt)
  controller_call-Impl (Session.unpublish volume_id node_id) =
      controller_unpublish_volume-Impl _ vcd_service-InSteps serves volume_id node_id
  controller_call-Impl (expand req) =
      Impl-then _ _ (controller_expand_volume-Impl _ vcd_service-InSteps serves req) (Impl-pure tt)

  node_call-Impl : (r : NodeRequest) → Impl {M = M} Onward (IsIdle {W = W}) (node_call m r)
  unfolding node_call
  node_call-Impl (stage req) = node_stage_volume-Impl m req
  node_call-Impl (unstage volume_id path) = node_unstage_volume-Impl m volume_id path
  node_call-Impl (publish req) = node_publish_volume-Impl m req
  node_call-Impl (unpublish volume_id path) = node_unpublish_volume-Impl m volume_id path
  node_call-Impl (stats volume_id path) =
      Impl-then _ _ (node_get_volume_stats-Impl m volume_id path) (Impl-pure tt)

  pub driver_call-Impl :
      (r : Request)
      → Impl {M = M} Onward IsIdle (driver_call (vcd_service (traced cloud) c visit) sets m r)
  unfolding driver_call
  driver_call-Impl (controller r) = controller_call-Impl r
  driver_call-Impl (node r) = node_call-Impl r

  -- A goroutine for each request, none of which has begun.
  unfoldable pub start :
      (ℕ → Request) → State (VcdClient (Traced W)) M → System (Traced W) M (Unit {0})
  start requests s = record { state = s; threads = λ i. out (driver_call-Impl (requests i)).prog }
