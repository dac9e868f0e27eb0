-- ===== src/Driver/Publish/Laws.antt =====
-- What a publish hands to the node, and what an expansion that was refused does to it.
use vcd_csi.Prelude.{String, true, false, none, some, ◌≡◌, ◌≢◌, arith, eq_iff, eq_refl}
use mathlib.Core.Path.{subst}
use vcd_csi.Prelude.Dict.{Dict, lookup}
use vcd_csi.Go.Error.{status, new, internal}
use vcd_csi.Go.Exec.{ok, err, Outcome, returned, panicked, blocked, ◌>>=◌, zoom}
use vcd_csi.Locker.Laws.{holds, holds_lem}
use vcd_csi.Csi.{VolumeCapability, ControllerPublishVolumeRequest}
use vcd_csi.Driver.State.{VcdService, Mounter, State, on_vcl, invalid, reject}
use vcd_csi.Driver.Publish.{
  pub_context_unit, pub_context_disk_size, is_nil, lock_is_locked, controller_publish_volume,
}
use vcd_csi.Driver.Node.{from_context, required, node_stage_volume}

-- An outcome's value satisfies `Q`, if it has one.
abbrev Value : {A : Type 0} → (A → Type 0) → Outcome A → Type 0
Value Q (returned (ok a)) = Q a
Value Q (returned (err e)) = Unit
Value Q panicked = Unit
Value Q blocked = Unit

-- The context that a publish makes: the unit, and no size.
abbrev IsContext : Dict String → Type 0
IsContext context =
    (lookup pub_context_disk_size context ≡ none) × (lookup pub_context_unit context ≢ none)

module _ {S M : Type 0} (vcl : VcdService S) where
  controller_publish_volume-IsContext :
      (req : ControllerPublishVolumeRequest) (s : State S M)
      → Value IsContext (controller_publish_volume vcl req s).0
  unfolding controller_publish_volume reject lock_is_locked on_vcl zoom lookup ◌>>=◌
  controller_publish_volume-IsContext req s = ground arith

-- The context that any successful publish answers with makes the node refuse to stage a volume,
-- with the message that the context has no disk size, for any volume identifier, target and
-- capability that are given, and nothing changes on the node.
pub node_stage_volume-controller_publish_volume :
    {S M S' M' : Type 0} (vcl : VcdService S) (m : Mounter M')
    (req : ControllerPublishVolumeRequest) (s : State S M) (context : Dict String)
    (volume_id target : String) (capability : VolumeCapability) (t : State S' M')
    → (controller_publish_volume vcl req s).0 ≡ returned (ok context)
    → volume_id ≢ ""
    → target ≢ ""
    → node_stage_volume m
        (record {
          volume_id = volume_id;
          staging_target_path = target;
          volume_capability = some capability;
          publish_context = context;
        })
        t
      ≡ (returned (err (invalid "Publish context diskSizeB must be provided")), t)
unfolding node_stage_volume reject required from_context ◌>>=◌
node_stage_volume-controller_publish_volume vcl m req s context volume_id target capability t e hv
      ht =
    let h = subst (Value IsContext) e (controller_publish_volume-IsContext vcl req s) in
    ground (arith, eq_iff volume_id "", eq_iff target "", h)

module _ {S M : Type 0} (vcl : VcdService S) where
  -- A complete publish of a volume whose key the lock holds fails with the message that a resize
  -- is required, does not reach the client, and removes the key.
  pub controller_publish_volume_locked :
      (req : ControllerPublishVolumeRequest) (s : State S M)
      → req.volume_id ≢ ""
      → req.node_id ≢ ""
      → is_nil req.volume_capability ≡ false
      → req.readonly ≡ false
      → holds req.volume_id s.lock ≡ true
      → let after = controller_publish_volume vcl req s in
        (after.0
          ≡ returned (err (status internal (new "Resize required for volume, not publishing"))))
        × (after.1.vcl ≡ s.vcl)
        × (holds req.volume_id after.1.lock ≡ false)
  unfolding controller_publish_volume reject lock_is_locked ◌>>=◌
  controller_publish_volume_locked req s hv hn hc hr hl = ground (
    arith,
    eq_iff req.volume_id "",
    eq_iff req.node_id "",
    eq_refl req.volume_id,
    holds_lem req.volume_id req.volume_id s.lock,
  )
