-- ===== src/Driver/Expand.antt =====
-- `ControllerExpandVolume` of internal/driver/disk.go.
pub mod Laws
use vcd_csi.Prelude.{
  String, List, [], ◌∷◌, Bool, true, false, Option, none, some, ◌==◌, if◌then◌else◌,
}
use vcd_csi.Go.Int.{leb_ℤ}
use vcd_csi.Go.Error.{
  Error, status, errorf, text, cause, end, out_of_range, internal, is_disk_attached_to_vm,
}
use vcd_csi.Go.Exec.{ok, err, Exec, pure, raise, deref, attempt, ◌>>=◌, ◌>>◌}
use vcd_csi.StorageSize.{StorageSize, bytes}
use vcd_csi.Vcd.Service.{VolumeWithCap}
use vcd_csi.Csi.{
  AccessType, unset, block, mount, VolumeCapability, CapacityRange, ControllerExpandVolumeRequest,
  ControllerExpandVolumeResponse,
}
use vcd_csi.Driver.State.{VcdService, State, on_vcl, invalid, reject}
use vcd_csi.Driver.Capacity.{extract_storage}
use vcd_csi.Driver.Publish.{lock_put, lock_pop}

-- The loop over the volumes: the last one of the name.
unfoldable pub find_volume :
    String → List VolumeWithCap → Option VolumeWithCap → Option VolumeWithCap
find_volume volume_id [] found = found
find_volume volume_id (volume ∷ volumes) found =
    find_volume volume_id volumes (if volume.name == volume_id then some volume else found)

-- The name of the data centre, which stays empty if the volume is not found.
abbrev pub vdc_of : Option VolumeWithCap → String
vdc_of none = ""
vdc_of (some volume) = volume.vdc_name

-- Only a block volume needs no expansion on the node.
abbrev pub needs_node_expansion : Option VolumeCapability → Bool
needs_node_expansion none = true
needs_node_expansion (some capability) = elim capability.access_type [
  | unset ↦ true
  | block ↦ false
  | mount m ↦ true
]

module _ {S M : Type 0} (vcl : VcdService S) where
  unfoldable pub resize :
      ControllerExpandVolumeRequest
      → String
      → StorageSize
      → Exec (State S M) ControllerExpandVolumeResponse
  resize req vdc_name resize_bytes = do
    resized ← attempt (on_vcl (vcl.resize_disk vdc_name req.volume_id resize_bytes))
    elim resized [
      | ok _ ↦ do
        lock_pop req.volume_id
        pure (record {
          capacity_bytes = bytes resize_bytes;
          node_expansion_required = needs_node_expansion req.volume_capability;
        })
      | err e ↦
          if is_disk_attached_to_vm e
          then (do
            lock_put req.volume_id
            raise (
                status internal (
                  errorf
                    "cannot resize volume %s: %s, disk is attached, locking it with mutex, you have to delete pod"
                    (text req.volume_id (cause e end)))))
          else raise (
              status internal
                (errorf "cannot resize volume %s: %s" (text req.volume_id (cause e end))))
    ]

  unfoldable pub new_size : Option CapacityRange → Exec (State S M) StorageSize
  new_size range = elim (extract_storage range) [
    | ok size ↦ pure size
    | err e ↦ raise (
        status out_of_range
          (errorf "ControllerExpandVolume invalid capacity range: %v" (cause e end)))
  ]

  -- The first line reads a field of the range, which may be nil; so may the size of the volume
  -- that the listing did not find.
  unfoldable pub controller_expand_volume :
      ControllerExpandVolumeRequest → Exec (State S M) ControllerExpandVolumeResponse
  controller_expand_volume req = do
    deref req.capacity_range
    reject (req.volume_id == "") (invalid "ControllerExpandVolume volume ID missing in request")
    volumes ← on_vcl vcl.list_volumes
    let volume = find_volume req.volume_id volumes none
    resize_bytes ← new_size req.capacity_range
    current ← deref volume
    if leb_ℤ (bytes resize_bytes) (bytes current.cap)
        then pure (record { capacity_bytes = bytes current.cap; node_expansion_required = true })
        else resize req (vdc_of volume) resize_bytes
