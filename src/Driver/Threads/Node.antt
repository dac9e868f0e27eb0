-- ===== src/Driver/Threads/Node.antt =====
-- The methods of internal/driver/node.go as programs, one step for each call of the mounter.
use vcd_csi.Prelude.{refl, String, List, Option, none, some}
use vcd_csi.Prelude.Dict.{Dict, lookup}
use vcd_csi.Go.Error.{Error}
use vcd_csi.Go.Exec.{Exec, zoom}
use vcd_csi.Csi.{
  AccessType, unset, block, mount, VolumeCapability, NodeStageVolumeRequest,
  NodePublishVolumeRequest,
}
use vcd_csi.Vcd.State.{VcdClient}
use vcd_csi.Driver.Threads.{on_rest}
use vcd_csi.Driver.Threads.Impl.{
  Impl, Impl-atom, Impl-pure, Impl-raise, Impl-panic, Impl-bind, Impl-then, Impl-if, Impl-option,
  Impl-attempt_bind,
}
use vcd_csi.Driver.Threads.Format.{format_once-Impl}
use vcd_csi.Driver.Threads.Controller.{reject-Impl}
use vcd_csi.Driver.State.{Mounter, on_host}
use vcd_csi.Driver.Node.{
  from_context, required, get_mount, mount_once, unmount_once, with_status, stage_disk,
  node_stage_volume, node_unstage_volume, node_publish_volume, node_unpublish_volume, publish_as,
  node_publish_volume_for_file_system, node_publish_volume_for_block, node_get_volume_stats,
}

module _ {W M : Type 0} {R : VcdClient W → VcdClient W → Type 0} {P : VcdClient W → Type 0}
    (m : Mounter M) where
  -- One call of the host.
  on_host-Impl : {A : Type 0} (call : Exec M A) → Impl {M = M} R P (on_host call)
  unfolding on_host on_rest zoom
  on_host-Impl call =
      Impl-atom _ (λ r. let (o, host) = call r.host in (o, record r { host = host })) (λ s. refl)

  with_status-Impl :
      {A : Type 0} (f : Error → Error) (call : Exec M A) → Impl {M = M} R P (with_status m f call)
  unfolding with_status
  with_status-Impl f call =
      Impl-attempt_bind _ _ _ (on_host-Impl call) (λ a. Impl-pure a) (λ e. Impl-raise (f e))

  mount_once-Impl :
      (to_status : Error → Error) (source target fs_type : String) (options : List String)
      → Impl {M = M} R P (mount_once m to_status source target fs_type options)
  unfolding mount_once
  mount_once-Impl to_status source target fs_type options =
      Impl-bind _ _ (on_host-Impl _)
        λ mounted. Impl-if mounted _ _ (λ _. Impl-pure tt) (λ _. with_status-Impl _ _)

  unmount_once-Impl : (target : String) → Impl {M = M} R P (unmount_once m target)
  unfolding unmount_once
  unmount_once-Impl target =
      Impl-bind _ _ (on_host-Impl _)
        λ mounted. Impl-if mounted _ _ (λ _. on_host-Impl _) (λ _. Impl-pure tt)

  required-Impl :
      (capability : Option VolumeCapability) (message : String)
      → Impl {M = M} R P (required capability message)
  unfolding required
  required-Impl none message = Impl-raise _
  required-Impl (some capability) message = Impl-pure capability

  from_context-Impl :
      (key : String) (context : Dict String) (message : String)
      → Impl {M = M} R P (from_context key context message)
  unfolding from_context
  from_context-Impl key context message =
      Impl-option (lookup key context) _ _ (Impl-raise _) (λ value. Impl-pure value)

  get_mount-Impl : (t : AccessType) → Impl {M = M} R P (get_mount t)
  unfolding get_mount
  get_mount-Impl (mount m') = Impl-pure m'
  get_mount-Impl unset = Impl-panic
  get_mount-Impl block = Impl-panic

  stage_disk-Impl :
      (req : NodeStageVolumeRequest) (size unit : String) (t : AccessType)
      → Impl {M = M} R P (stage_disk m req size unit t)
  unfolding stage_disk
  stage_disk-Impl req size unit block = Impl-pure tt
  stage_disk-Impl req size unit unset = Impl-bind _ _ (on_host-Impl _) λ source.
      Impl-bind _ _ (get_mount-Impl _)
        λ mnt. Impl-then _ _ (format_once-Impl m source _) (mount_once-Impl _ source _ _ _)
  stage_disk-Impl req size unit (mount m') = Impl-bind _ _ (on_host-Impl _) λ source.
      Impl-bind _ _ (get_mount-Impl _)
        λ mnt. Impl-then _ _ (format_once-Impl m source _) (mount_once-Impl _ source _ _ _)

  pub node_stage_volume-Impl :
      (req : NodeStageVolumeRequest) → Impl {M = M} R P (node_stage_volume m req)
  unfolding node_stage_volume
  node_stage_volume-Impl req = Impl-then _ _ (reject-Impl _ _) (
      Impl-then _ _ (reject-Impl _ _) (
        Impl-bind _ _ (required-Impl _ _) λ capability.
          Impl-bind _ _ (from_context-Impl _ _ _) λ unit.
            Impl-bind _ _ (from_context-Impl _ _ _)
              λ size. stage_disk-Impl req size unit capability.access_type))

  publish_as-Impl :
      (req : NodePublishVolumeRequest) (options : List String) (t : AccessType)
      → Impl {M = M} R P (publish_as m req options t)
  unfolding publish_as node_publish_volume_for_file_system node_publish_volume_for_block
  publish_as-Impl req options unset = Impl-raise _
  publish_as-Impl req options (mount mnt) = mount_once-Impl _ _ _ _ _
  publish_as-Impl req options block = Impl-bind _ _ (from_context-Impl _ _ _) λ unit.
      Impl-bind _ _ (from_context-Impl _ _ _)
        λ size. Impl-bind _ _ (with_status-Impl _ _) λ source. mount_once-Impl _ source _ _ _

  pub node_publish_volume-Impl :
      (req : NodePublishVolumeRequest) → Impl {M = M} R P (node_publish_volume m req)
  unfolding node_publish_volume
  node_publish_volume-Impl req = Impl-then _ _ (reject-Impl _ _) (
      Impl-then _ _ (reject-Impl _ _) (
        Impl-then _ _ (reject-Impl _ _) (
          Impl-bind _ _ (required-Impl _ _)
            λ capability. publish_as-Impl req _ capability.access_type)))

  pub node_unstage_volume-Impl :
      (volume_id target : String) → Impl {M = M} R P (node_unstage_volume m volume_id target)
  unfolding node_unstage_volume
  node_unstage_volume-Impl volume_id target =
      Impl-then _ _ (reject-Impl _ _) (Impl-then _ _ (reject-Impl _ _) (unmount_once-Impl target))

  pub node_unpublish_volume-Impl :
      (volume_id target : String) → Impl {M = M} R P (node_unpublish_volume m volume_id target)
  unfolding node_unpublish_volume
  node_unpublish_volume-Impl volume_id target =
      Impl-then _ _ (reject-Impl _ _) (Impl-then _ _ (reject-Impl _ _) (unmount_once-Impl target))

  pub node_get_volume_stats-Impl :
      (volume_id path : String) → Impl {M = M} R P (node_get_volume_stats m volume_id path)
  unfolding node_get_volume_stats
  node_get_volume_stats-Impl volume_id path = Impl-then _ _ (reject-Impl _ _) (
      Impl-then _ _ (reject-Impl _ _) (
        Impl-bind _ _ (with_status-Impl _ _) λ mounted.
          Impl-if mounted _ _
            (λ _.
              Impl-bind _ _ (with_status-Impl _ _)
                λ is_block. Impl-bind _ _ (with_status-Impl _ _) λ stats. Impl-pure _)
            (λ _. Impl-raise _)))
