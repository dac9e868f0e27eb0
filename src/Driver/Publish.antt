-- ===== src/Driver/Publish.antt =====
-- `ControllerPublishVolume` and `ControllerUnpublishVolume` of internal/driver/disk.go.
pub mod Laws
use vcd_csi.Prelude.{String, [], ◌∷◌, Bool, true, false, Option, none, some, ◌==◌, if◌then◌else◌}
use vcd_csi.Prelude.Dict.{Dict}
use vcd_csi.Go.Error.{
  Error, disk_not_exists, vm_not_found, wrong_disk_attach, status, as_format, new, errorf, text,
  end, internal, not_found, already_exists, failed_precondition,
}
use vcd_csi.Go.Exec.{ok, err, Exec, pure, raise, attempt, zoom, returned, ◌>>=◌, ◌>>◌}
use vcd_csi.Locker
use vcd_csi.Vcd.Attach.{DiskAttachParams}
use vcd_csi.Csi.{VolumeCapability, ControllerPublishVolumeRequest}
use vcd_csi.Driver.State.{VcdService, State, on_vcl, invalid, reject}

abbrev pub pub_context_unit : String
pub_context_unit = "diskUnitNum"

abbrev pub pub_context_disk_size : String
pub_context_disk_size = "diskSizeB"

-- a nil message
abbrev pub is_nil {ℓ} : {A : Type ℓ} → Option A → Bool
is_nil none = true
is_nil (some a) = false

-- The `switch` over the errors of `AttachDisk`.
unfoldable pub attach_status : String → Error → Error
attach_status volume_id disk_not_exists = status internal (new "disk not exists")
attach_status volume_id vm_not_found = status not_found (new "vm not exists at cloud")
attach_status volume_id wrong_disk_attach = status failed_precondition (
    errorf "Disk %q is attached to the wrong Instance, detach the Disk to fix it"
      (text volume_id end))
attach_status volume_id e = status internal e

module _ {S M : Type 0} where
  -- `c.lock.IsLocked(key)`, `c.lock.Put(key)` and `c.lock.Pop(key)`
  unfoldable pub lock_is_locked : String → Exec (State S M) Bool
  lock_is_locked key s =
      let (answer, lock) = Locker.is_locked key s.lock in
      (returned (ok answer), record s { lock = lock })

  unfoldable pub lock_put : String → Exec (State S M) (Unit {0})
  lock_put key s = (returned (ok tt), record s { lock = Locker.put key s.lock })

  unfoldable pub lock_pop : String → Exec (State S M) Bool
  lock_pop key s =
      let (answer, lock) = Locker.pop key s.lock in (returned (ok answer), record s { lock = lock })

module _ {S M : Type 0} (vcl : VcdService S) where
  -- The answer is the publish context: the unit alone.
  unfoldable pub controller_publish_volume :
      ControllerPublishVolumeRequest → Exec (State S M) (Dict String)
  controller_publish_volume req = do
    reject (req.volume_id == "") (invalid "ControllerPublishVolume Volume ID must be provided")
    reject (req.node_id == "") (invalid "ControllerPublishVolume Node ID must be provided")
    reject (is_nil req.volume_capability)
        (invalid "ControllerPublishVolume Volume capability must be provided")
    reject req.readonly (status already_exists (new "read only Volumes are not supported"))
    locked ← lock_is_locked req.volume_id
    reject locked (status internal (new "Resize required for volume, not publishing"))
    disk_attach ← attempt (on_vcl (vcl.attach_disk req.node_id req.volume_id))
    elim disk_attach [
      | ok params ↦ pure ((pub_context_unit, params.path) ∷ [])
      | err e ↦ raise (attach_status req.volume_id e)
    ]

  unfoldable pub controller_unpublish_volume : String → String → Exec (State S M) (Unit {0})
  controller_unpublish_volume volume_id node_id = do
    reject (volume_id == "") (invalid "ControllerUnpublishVolume Volume ID must be provided")
    detached ← attempt (on_vcl (vcl.detach_disk node_id volume_id))
    elim detached [ ok _ ↦ pure tt | err e ↦ raise (status internal (as_format e)) ]
