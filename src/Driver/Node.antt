-- ===== src/Driver/Node.antt =====
-- internal/driver/node.go: staging and publishing a volume on its node.
pub mod Keeps
pub mod Apart
pub mod Order
pub mod Session
use vcd_csi.Prelude.{
  String, List, [], ◌∷◌, ◌++◌, Bool, true, false, Option, none, some, ◌==◌, if◌then◌else◌,
}
use vcd_csi.Prelude.Dict.{Dict, lookup}
use vcd_csi.Go.Error.{Error, status, as_format, new, errorf, text, cause, end, internal, not_found}
use vcd_csi.Go.Exec.{Result, ok, err, Exec, pure, raise, panic, attempt, ◌>>=◌, ◌>>◌}
use vcd_csi.Csi.{
  AccessType, unset, block, mount, MountVolume, VolumeCapability, NodeStageVolumeRequest,
  NodePublishVolumeRequest, VolumeUsage, in_bytes, in_inodes,
}
use vcd_csi.Go.Int.{pos}
use vcd_csi.Driver.State.{Mounter, State, VolumeStatistics, on_host, invalid, reject}
use vcd_csi.Driver.Publish.{pub_context_unit, pub_context_disk_size, is_nil}

module _ {S M : Type 0} where
  -- `value, ok := req.PublishContext[key]`
  unfoldable pub from_context : String → Dict String → String → Exec (State S M) String
  from_context key context message = elim (lookup key context) [
    | some value ↦ pure value
    | none ↦ raise (invalid message)
  ]

  unfoldable pub required : Option VolumeCapability → String → Exec (State S M) VolumeCapability
  required none message = raise (invalid message)
  required (some capability) message = pure capability

  -- `req.VolumeCapability.GetMount()`, whose fields are read: nil unless the type is a mount
  unfoldable pub get_mount : AccessType → Exec (State S M) MountVolume
  get_mount (mount m) = pure m
  get_mount unset = panic
  get_mount block = panic

-- `fsType := "ext4"`, unless the request names one
abbrev pub fs_type_of : MountVolume → String
fs_type_of mnt = if mnt.fs_type == "" then "ext4" else mnt.fs_type

-- `status.Error(codes.Internal, err.Error())`
abbrev pub internal_error : Error → Error
internal_error = status internal

-- `status.Errorf(codes.Internal, err.Error())`
abbrev pub internal_format : Error → Error
internal_format e = status internal (as_format e)

-- Only the total is reported of a block device.
unfoldable pub usage : Bool → VolumeStatistics → List VolumeUsage
usage true stats =
    record { available = pos 0; total = stats.total_bytes; used = pos 0; unit = in_bytes } ∷ []
usage false stats =
    record {
      available = stats.available_bytes;
      total = stats.total_bytes;
      used = stats.used_bytes;
      unit = in_bytes;
    }
    ∷ record {
      available = stats.available_inodes;
      total = stats.total_inodes;
      used = stats.used_inodes;
      unit = in_inodes;
    }
    ∷ []

abbrev stats_error : String → String → Error → Error
stats_error message volume_path e =
    status internal (errorf message (text volume_path (cause e end)))

module _ {S M : Type 0} (m : Mounter M) where
  -- A call whose error becomes a status.
  unfoldable pub with_status : {A : Type 0} → (Error → Error) → Exec M A → Exec (State S M) A
  with_status f call = do r ← attempt (on_host call); elim r [ ok a ↦ pure a | err e ↦ raise (f e) ]

  unfoldable pub format_once : String → String → Exec (State S M) (Unit {0})
  format_once source fs_type = do
    formatted ← on_host (m.is_formatted source)
    if formatted then pure tt else with_status internal_error (m.format source fs_type)

  -- `to_status` makes the status of a failed mount.
  unfoldable pub mount_once :
      (Error → Error) → String → String → String → List String → Exec (State S M) (Unit {0})
  mount_once to_status source target fs_type options = do
    mounted ← on_host (m.is_mounted target)
    if mounted then pure tt else with_status to_status (m.mount source target fs_type options)

  unfoldable pub unmount_once : String → Exec (State S M) (Unit {0})
  unmount_once target = do
    mounted ← on_host (m.is_mounted target)
    if mounted then on_host (m.unmount target) else pure tt

  -- The part of staging that a block volume skips.
  unfoldable pub stage_disk :
      NodeStageVolumeRequest → String → String → AccessType → Exec (State S M) (Unit {0})
  stage_disk req disk_size disk_unit block = pure tt
  stage_disk req disk_size disk_unit access_type = do
    source ← on_host (m.get_disk_unit disk_size disk_unit "")
    mnt ← get_mount access_type
    format_once source (fs_type_of mnt)
    mount_once internal_error source req.staging_target_path (fs_type_of mnt) mnt.mount_flags

  unfoldable pub node_stage_volume : NodeStageVolumeRequest → Exec (State S M) (Unit {0})
  node_stage_volume req = do
    reject (req.volume_id == "") (invalid "NodeStageVolume Volume ID must be provided")
    reject (req.staging_target_path == "")
        (invalid "NodeStageVolume Staging Target Path must be provided")
    capability ← required req.volume_capability "NodeStageVolume Volume Capability must be provided"
    disk_unit ←
        from_context pub_context_unit req.publish_context
          "Publish context diskUnitNum must be provided"
    disk_size ←
        from_context pub_context_disk_size req.publish_context
          "Publish context diskSizeB must be provided"
    stage_disk req disk_size disk_unit capability.access_type

  unfoldable pub node_unstage_volume : String → String → Exec (State S M) (Unit {0})
  node_unstage_volume volume_id staging_target_path = do
    reject (volume_id == "") (invalid "NodeUnstageVolume Volume ID must be provided")
    reject (staging_target_path == "")
        (invalid "NodeUnstageVolume Staging Target Path must be provided")
    unmount_once staging_target_path

  unfoldable pub node_publish_volume_for_file_system :
      NodePublishVolumeRequest → MountVolume → List String → Exec (State S M) (Unit {0})
  node_publish_volume_for_file_system req mnt mount_options =
      mount_once internal_error req.staging_target_path req.target_path (fs_type_of mnt)
        (mount_options ++ mnt.mount_flags)

  unfoldable pub node_publish_volume_for_block :
      NodePublishVolumeRequest → List String → Exec (State S M) (Unit {0})
  node_publish_volume_for_block req mount_options = do
    disk_unit ←
        from_context pub_context_unit req.publish_context
          "Publish context diskUnitNum must be provided"
    disk_size ←
        from_context pub_context_disk_size req.publish_context
          "Publish context diskSizeB must be provided"
    source ←
        with_status
          (λ e. status internal (
            errorf "Failed to find device path for volume %s. %v"
              (text req.volume_id (cause e end))))
          (m.get_disk_unit disk_size disk_unit "")
    mount_once internal_format source req.target_path "" mount_options

  unfoldable pub publish_as :
      NodePublishVolumeRequest → List String → AccessType → Exec (State S M) (Unit {0})
  publish_as req options block = node_publish_volume_for_block req options
  publish_as req options (mount mnt) = node_publish_volume_for_file_system req mnt options
  publish_as req options unset = raise (invalid "Unknown access type")

  unfoldable pub node_publish_volume : NodePublishVolumeRequest → Exec (State S M) (Unit {0})
  node_publish_volume req = do
    reject (req.volume_id == "") (invalid "NodePublishVolume Volume ID must be provided")
    reject (req.staging_target_path == "")
        (invalid "NodePublishVolume Staging Target Path must be provided")
    reject (req.target_path == "") (invalid "NodePublishVolume Target Path must be provided")
    capability ←
        required req.volume_capability "NodePublishVolume Volume Capability must be provided"
    publish_as req ("bind" ∷ (if req.readonly then "ro" ∷ [] else [])) capability.access_type

  unfoldable pub node_unpublish_volume : String → String → Exec (State S M) (Unit {0})
  node_unpublish_volume volume_id target_path = do
    reject (volume_id == "") (invalid "NodeUnpublishVolume Volume ID must be provided")
    reject (target_path == "") (invalid "NodeUnpublishVolume Target Path must be provided")
    unmount_once target_path

  unfoldable pub node_get_volume_stats : String → String → Exec (State S M) (List VolumeUsage)
  node_get_volume_stats volume_id volume_path = do
    reject (volume_id == "") (invalid "NodeGetVolumeStats Volume ID must be provided")
    reject (volume_path == "") (invalid "NodeGetVolumeStats Volume Path must be provided")
    mounted ←
        with_status (stats_error "failed to check if volume path %q is mounted: %s" volume_path)
          (m.is_mounted volume_path)
    if mounted
        then (do
          is_block ←
              with_status (stats_error "failed to determine if %q is block device: %s" volume_path)
                (m.is_block_device volume_path)
          stats ←
              with_status
                (stats_error "failed to retrieve capacity statistics for volume path %q: %s"
                  volume_path)
                (m.get_statistics volume_path)
          pure (usage is_block stats))
        else raise
            (status not_found (errorf "volume path %q is not mounted" (text volume_path end)))

-- `NodeExpandVolume` only logs: its answer and its error are both nil.
unfoldable pub node_expand_volume : {S : Type 0} → Exec S (Option (Unit {0}))
node_expand_volume = pure none
