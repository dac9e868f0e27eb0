-- ===== src/Service/Server.antt =====
-- The gRPC server of pkg/controller/v1/cntrl.go: the three services of the interface, all registered
-- with the one driver, behind the interceptor.
pub mod Laws
pub mod Session
use vcd_csi.Prelude.{String, List, [], ◌∷◌, Bool, Option}
use vcd_csi.Prelude.Dict.{Dict}
use vcd_csi.Go.Int.{ℤ, pos}
use vcd_csi.Go.Exec.{Outcome, returned, panicked, blocked, Exec, pure, ◌>>=◌, ◌>>◌}
use vcd_csi.Csi.{
  Mode, VolumeCapability, CreateVolumeRequest, Volume, ControllerPublishVolumeRequest,
  ControllerExpandVolumeRequest, ControllerExpandVolumeResponse, ControllerCapability,
  NodeCapability, PluginCapability, NodeStageVolumeRequest, NodePublishVolumeRequest, VolumeUsage,
  NodeGetInfoResponse,
}
use vcd_csi.Driver.State.{VcdService, Mounter, CsiDriver, State}
use vcd_csi.Driver.Capabilities.{StringSets}
use vcd_csi.Driver.Create as Controller
use vcd_csi.Driver.Publish
use vcd_csi.Driver.Expand
use vcd_csi.Driver.Info
use vcd_csi.Driver.Node
use vcd_csi.Service.Listen.{Logged, err_handler}

-- The calls of the three services. `snapshots` stands for `CreateSnapshot`, `DeleteSnapshot` and
-- `ListSnapshots`, which all answer alike.
pub data Call : Type 0 where
  get_plugin_info : Call
  get_plugin_capabilities : Call
  probe : Call
  create_volume : CreateVolumeRequest → Call
  delete_volume : String → Call
  controller_publish_volume : ControllerPublishVolumeRequest → Call
  controller_unpublish_volume : String → String → Call
  validate_volume_capabilities : String → Option (List VolumeCapability) → Call
  list_volumes : Call
  get_capacity : Call
  controller_get_capabilities : Call
  snapshots : Call
  controller_expand_volume : ControllerExpandVolumeRequest → Call
  node_stage_volume : NodeStageVolumeRequest → Call
  node_unstage_volume : String → String → Call
  node_publish_volume : NodePublishVolumeRequest → Call
  node_unpublish_volume : String → String → Call
  node_get_volume_stats : String → String → Call
  node_expand_volume : Call
  node_get_capabilities : Call
  node_get_info : Call

-- What they answer. An answer without a field is `empty`; `nil` is no answer at all.
pub data Reply : Type 0 where
  empty : Reply
  nil : Reply
  plugin : String × String → Reply
  plugin_capabilities : List PluginCapability → Reply
  ready : Bool → Reply
  volume : Volume → Reply
  context : Dict String → Reply
  modes : List Mode → Reply
  volumes : List Volume → Reply
  capacity : ℤ → Reply
  controller_capabilities : List ControllerCapability → Reply
  expanded : ControllerExpandVolumeResponse → Reply
  usage : List VolumeUsage → Reply
  node_capabilities : List NodeCapability → Reply
  node_info : NodeGetInfoResponse → Reply

unfoldable pub answer : {S A : Type 0} → (A → Reply) → Exec S A → Exec S Reply
answer reply m = do a ← m; pure (reply a)

abbrev nothing : Option (Unit {0}) → Reply
nothing o = nil

-- A panic ends the process, and a call that blocks for ever has no call after it.
abbrev pub after_call :
    {T : Type 0} → Outcome Reply → T → List (Outcome Reply) × T → List (Outcome Reply) × T
after_call (returned r) t later = (returned r ∷ later.0, later.1)
after_call panicked t later = (panicked ∷ [], t)
after_call blocked t later = (blocked ∷ [], t)

module _ {S M Set : Type 0} (vcl : VcdService S) (sets : StringSets Set) (m : Mounter M)
    (drv : CsiDriver) where
  -- `csi.RegisterIdentityServer`, `csi.RegisterControllerServer` and `csi.RegisterNodeServer`: the
  -- driver's method for each call.
  unfoldable pub registered : Call → Exec (State S M) Reply
  registered get_plugin_info = answer plugin (Info.get_plugin_info drv)
  registered get_plugin_capabilities = answer plugin_capabilities Info.get_plugin_capabilities
  registered probe = answer ready Info.probe
  registered (create_volume req) = answer volume (Controller.create_volume vcl sets req)
  registered (delete_volume volume_id) =
      answer (λ _. empty) (Controller.delete_volume vcl volume_id)
  registered (controller_publish_volume req) =
      answer context (Publish.controller_publish_volume vcl req)
  registered (controller_unpublish_volume volume_id node_id) =
      answer (λ _. empty) (Publish.controller_unpublish_volume vcl volume_id node_id)
  registered (validate_volume_capabilities volume_id capabilities) =
      answer modes (Info.validate_volume_capabilities volume_id capabilities)
  registered list_volumes = answer volumes (Controller.list_volumes vcl)
  registered get_capacity = answer capacity Info.get_capacity
  registered controller_get_capabilities =
      answer controller_capabilities Info.controller_get_capabilities
  registered snapshots = answer (λ _. empty) Info.snapshots
  registered (controller_expand_volume req) =
      answer expanded (Expand.controller_expand_volume vcl req)
  registered (node_stage_volume req) = answer (λ _. empty) (Node.node_stage_volume m req)
  registered (node_unstage_volume volume_id path) =
      answer (λ _. empty) (Node.node_unstage_volume m volume_id path)
  registered (node_publish_volume req) = answer (λ _. empty) (Node.node_publish_volume m req)
  registered (node_unpublish_volume volume_id path) =
      answer (λ _. empty) (Node.node_unpublish_volume m volume_id path)
  registered (node_get_volume_stats volume_id path) =
      answer usage (Node.node_get_volume_stats m volume_id path)
  registered node_expand_volume = answer nothing Node.node_expand_volume
  registered node_get_capabilities = answer node_capabilities Info.node_get_capabilities
  registered node_get_info = answer node_info (Info.node_get_info drv)

  module _ (full_method : Call → String) where
    -- One call, through the interceptor. `full_method` is the name that gRPC gives it.
    unfoldable pub handle : Call → Exec (Logged (State S M)) Reply
    handle call = err_handler (full_method call) (registered call)

    -- Calls one after the other, with their answers.
    unfoldable pub serve_grpc :
        List Call → Logged (State S M) → List (Outcome Reply) × Logged (State S M)
    serve_grpc [] s = ([], s)
    serve_grpc (call ∷ calls) s =
        let (o, s') = handle call s in after_call o s' (serve_grpc calls s')

-- The handler of `/health`.
unfoldable pub health : ℤ
health = pos 200
