-- ===== src/Driver/Node/Keeps.antt =====
-- A predicate that the handlers of internal/driver/node.go keep, from what their calls of the mounter
-- keep: each check is taken together with the call that it guards.
use vcd_csi.Prelude.{String, List, Bool, Option, none, some, arith}
use vcd_csi.Prelude.Dict.{Dict}
use vcd_csi.Go.Error.{Error}
use vcd_csi.Go.Exec.{Exec, ◌>>=◌}
use vcd_csi.Go.Exec.Keeps.{
  Keeps, Keeps-pure, Keeps-raise, Keeps-bind, Keeps-then, Keeps-attempt, Keeps-if,
}
use vcd_csi.Csi.{
  AccessType, unset, block, mount, VolumeCapability, NodeStageVolumeRequest,
  NodePublishVolumeRequest,
}
use vcd_csi.Driver.State.{Mounter, State, on_host, reject}
use vcd_csi.Driver.Node.{
  from_context, required, get_mount, format_once, mount_once, unmount_once, with_status, stage_disk,
  node_stage_volume, node_unstage_volume, node_publish_volume, node_unpublish_volume, publish_as,
  node_publish_volume_for_file_system, node_publish_volume_for_block, node_get_volume_stats,
}

pub record KeepsHost {S M : Type 0} (P : State S M → Type 0) (m : Mounter M) : Type 0 where
  pub formats : (source fs_type : String) → Keeps P (format_once m source fs_type)
  pub mounts :
      (to_status : Error → Error) (source target fs_type : String) (options : List String)
      → Keeps P (mount_once m to_status source target fs_type options)
  pub unmounts : (target : String) → Keeps P (unmount_once m target)
  pub finds : (size unit bus : String) → Keeps P (on_host (m.get_disk_unit size unit bus))
  pub sees : (target : String) → Keeps P (on_host (m.is_mounted target))
  pub tells : (path : String) → Keeps P (on_host (m.is_block_device path))
  pub counts : (path : String) → Keeps P (on_host (m.get_statistics path))

module _ {S M : Type 0} {P : State S M → Type 0} (m : Mounter M) (h : KeepsHost P m) where
  with_status-Keeps :
      {A : Type 0} (f : Error → Error) (call : Exec M A)
      → Keeps P (on_host call)
      → Keeps P (with_status m f call)
  unfolding with_status
  with_status-Keeps f call k = Keeps-attempt _ _ _ k (λ a. Keeps-pure a) (λ e. Keeps-raise (f e))

  reject-Keeps : (b : Bool) (e : Error) → Keeps P (reject b e)
  unfolding reject
  reject-Keeps b e = Keeps-if b _ _ (Keeps-raise e) (Keeps-pure tt)

  required-Keeps :
      (capability : Option VolumeCapability) (message : String)
      → Keeps P (required capability message)
  unfolding required
  required-Keeps none message = Keeps-raise _
  required-Keeps (some capability) message = Keeps-pure capability

  from_context-Keeps :
      (key : String) (context : Dict String) (message : String)
      → Keeps P (from_context key context message)
  unfolding from_context ◌>>=◌
  from_context-Keeps key context message = record { at = λ s p. ground arith }

  get_mount-Keeps : (t : AccessType) → Keeps P (get_mount t)
  unfolding get_mount ◌>>=◌
  get_mount-Keeps t = record { at = λ s p. ground arith }

  stage_disk-Keeps :
      (req : NodeStageVolumeRequest) (size unit : String) (t : AccessType)
      → Keeps P (stage_disk m req size unit t)
  unfolding stage_disk
  stage_disk-Keeps req size unit block = Keeps-pure tt
  stage_disk-Keeps req size unit unset = Keeps-bind _ _ (h.finds size unit "") λ source.
      Keeps-bind _ _ (get_mount-Keeps _)
        λ mnt. Keeps-then _ _ (h.formats source _) (h.mounts _ source _ _ _)
  stage_disk-Keeps req size unit (mount m') = Keeps-bind _ _ (h.finds size unit "") λ source.
      Keeps-bind _ _ (get_mount-Keeps _)
        λ mnt. Keeps-then _ _ (h.formats source _) (h.mounts _ source _ _ _)

  pub node_stage_volume-Keeps : (req : NodeStageVolumeRequest) → Keeps P (node_stage_volume m req)
  unfolding node_stage_volume
  node_stage_volume-Keeps req = Keeps-then _ _ (reject-Keeps _ _) (
      Keeps-then _ _ (reject-Keeps _ _) (
        Keeps-bind _ _ (required-Keeps _ _) λ capability.
          Keeps-bind _ _ (from_context-Keeps _ _ _) λ unit.
            Keeps-bind _ _ (from_context-Keeps _ _ _)
              λ size. stage_disk-Keeps req size unit capability.access_type))

  publish_as-Keeps :
      (req : NodePublishVolumeRequest) (options : List String) (t : AccessType)
      → Keeps P (publish_as m req options t)
  unfolding publish_as node_publish_volume_for_file_system node_publish_volume_for_block
  publish_as-Keeps req options unset = Keeps-raise _
  publish_as-Keeps req options (mount mnt) = h.mounts _ _ _ _ _
  publish_as-Keeps req options block = Keeps-bind _ _ (from_context-Keeps _ _ _) λ unit.
      Keeps-bind _ _ (from_context-Keeps _ _ _) λ size.
        Keeps-bind _ _ (with_status-Keeps _ _ (h.finds size unit ""))
          λ source. h.mounts _ source _ _ _

  pub node_publish_volume-Keeps :
      (req : NodePublishVolumeRequest) → Keeps P (node_publish_volume m req)
  unfolding node_publish_volume
  node_publish_volume-Keeps req = Keeps-then _ _ (reject-Keeps _ _) (
      Keeps-then _ _ (reject-Keeps _ _) (
        Keeps-then _ _ (reject-Keeps _ _) (
          Keeps-bind _ _ (required-Keeps _ _)
            λ capability. publish_as-Keeps req _ capability.access_type)))

  pub node_unstage_volume-Keeps :
      (volume_id target : String) → Keeps P (node_unstage_volume m volume_id target)
  unfolding node_unstage_volume
  node_unstage_volume-Keeps volume_id target =
      Keeps-then _ _ (reject-Keeps _ _) (Keeps-then _ _ (reject-Keeps _ _) (h.unmounts target))

  pub node_unpublish_volume-Keeps :
      (volume_id target : String) → Keeps P (node_unpublish_volume m volume_id target)
  unfolding node_unpublish_volume
  node_unpublish_volume-Keeps volume_id target =
      Keeps-then _ _ (reject-Keeps _ _) (Keeps-then _ _ (reject-Keeps _ _) (h.unmounts target))

  pub node_get_volume_stats-Keeps :
      (volume_id path : String) → Keeps P (node_get_volume_stats m volume_id path)
  unfolding node_get_volume_stats
  node_get_volume_stats-Keeps volume_id path = Keeps-then _ _ (reject-Keeps _ _) (
      Keeps-then _ _ (reject-Keeps _ _) (
        Keeps-bind _ _ (with_status-Keeps _ _ (h.sees path)) λ mounted.
          Keeps-if mounted _ _
            (Keeps-bind _ _ (with_status-Keeps _ _ (h.tells path)) λ is_block.
              Keeps-bind _ _ (with_status-Keeps _ _ (h.counts path)) λ stats. Keeps-pure _)
            (Keeps-raise _)))
