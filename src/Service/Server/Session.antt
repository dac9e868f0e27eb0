-- ===== src/Service/Server/Session.antt =====
-- The calls of the gRPC server of pkg/controller/v1/cntrl.go as requests to the driver.
use vcd_csi.Prelude.{List, [], ◌∷◌, ◌≡◌}
use vcd_csi.Go.Exec.{Exec}
use vcd_csi.Cloud.{Cloud}
use vcd_csi.Vcd.Trace as Cloud_trace
use vcd_csi.Mount.Host.{Host}
use vcd_csi.Mount.Trace as Host_trace
use vcd_csi.Service.Start.{Service}
use vcd_csi.Driver.State.{VcdService, Mounter, CsiDriver, State}
use vcd_csi.Driver.Capabilities.{StringSets}
use vcd_csi.Driver.Create as Controller
use vcd_csi.Driver.Publish
use vcd_csi.Driver.Expand
use vcd_csi.Driver.Info
use vcd_csi.Driver.Node
use vcd_csi.Driver.Session
use vcd_csi.Driver.Session.{Request, controller, node, driver_serve}
use vcd_csi.Driver.Node.Session as Node_session
use vcd_csi.Service.Server.{
  Call, create_volume, delete_volume, controller_publish_volume, controller_unpublish_volume,
  list_volumes, controller_expand_volume, node_stage_volume, node_unstage_volume,
  node_publish_volume, node_unpublish_volume, node_get_volume_stats,
}

-- The request that a call is to the client, the lock or the host.
abbrev pub requests_of : Call → List Request
requests_of (create_volume req) = controller (Session.create req) ∷ []
requests_of (delete_volume volume_id) = controller (Session.delete volume_id) ∷ []
requests_of (controller_publish_volume req) = controller (Session.publish req) ∷ []
requests_of (controller_unpublish_volume volume_id node_id) =
    controller (Session.unpublish volume_id node_id) ∷ []
requests_of list_volumes = controller Session.list ∷ []
requests_of (controller_expand_volume req) = controller (Session.expand req) ∷ []
requests_of (node_stage_volume req) = node (Node_session.stage req) ∷ []
requests_of (node_unstage_volume volume_id path) = node (Node_session.unstage volume_id path) ∷ []
requests_of (node_publish_volume req) = node (Node_session.publish req) ∷ []
requests_of (node_unpublish_volume volume_id path) =
    node (Node_session.unpublish volume_id path) ∷ []
requests_of (node_get_volume_stats volume_id path) = node (Node_session.stats volume_id path) ∷ []
requests_of _ = []

module _ {S M Set : Type 0} (vcl : VcdService S) (sets : StringSets Set) (m : Mounter M)
    (drv : CsiDriver) where
  -- A state that the driver reaches by some requests.
  abbrev Reached : State S M → State S M → Type 0
  Reached s t = (requests : List Request) × (t ≡ driver_serve vcl sets m requests s)
