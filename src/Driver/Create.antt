-- ===== src/Driver/Create.antt =====
-- `CreateVolume`, `DeleteVolume` and `ListVolumes` of internal/driver/disk.go.
pub mod Laws
pub mod Again
use vcd_csi.Prelude.{
  String, ◌<>◌, List, [], ◌∷◌, map, Bool, true, false, not, Option, none, some, ◌==◌, if◌then◌else◌,
}
use vcd_csi.Prelude.Dict.{Dict, lookup}
use vcd_csi.Go.Error.{
  Error, status, errorf, text, cause, end, out_of_range, internal, is_disk_already_exists,
}
use vcd_csi.Go.Exec.{Result, ok, err, Exec, pure, raise, attempt, ◌>>=◌, ◌>>◌}
use vcd_csi.StorageSize.{StorageSize, bytes}
use vcd_csi.Vcd.Service.{VolumeWithCap}
use vcd_csi.Csi.{CapacityRange, CreateVolumeRequest, Volume}
use vcd_csi.Driver.State.{VcdService, State, on_vcl, invalid, reject}
use vcd_csi.Driver.Capacity.{extract_storage}
use vcd_csi.Driver.Capabilities.{StringSets, validate_capabilities}

abbrev pub vcd_param : String
vcd_param = "vcd"

abbrev pub storage_profile_param : String
storage_profile_param = "storageProfile"

abbrev pub topology_key : String
topology_key = "failure-domain.beta.kubernetes.io/zone"

-- `len(xs) == 0`
abbrev pub is_empty {ℓ} : {A : Type ℓ} → List A → Bool
is_empty [] = true
is_empty (x ∷ xs) = false

-- `strings.Join(texts, "; ")`
unfoldable pub join : List String → String
join [] = ""
join (x ∷ []) = x
join (x ∷ y ∷ xs) = x <> ("; " <> join (y ∷ xs))

module _ {S M : Type 0} where
  -- `value, ok := req.Parameters[key]`
  unfoldable pub parameter : String → Dict String → Exec (State S M) String
  parameter key parameters = elim (lookup key parameters) [
    | some value ↦ pure value
    | none ↦ raise (invalid ("CreateVolume Volume parameter \"" <> (key <> "\" must be provided")))
  ]

  unfoldable pub requested_size : Option CapacityRange → Exec (State S M) StorageSize
  requested_size range = elim (extract_storage range) [
    | ok size ↦ pure size
    | err e ↦ raise (status out_of_range (errorf "invalid capacity range: %v" (cause e end)))
  ]

unfoldable pub created_volume : String → String → StorageSize → Volume
created_volume name vcd size = record {
  capacity_bytes = bytes size;
  volume_id = name;
  accessible_topology = ((topology_key, vcd) ∷ []) ∷ [];
}

module _ {S M Set : Type 0} (vcl : VcdService S) (sets : StringSets Set) where
  unfoldable pub create_volume : CreateVolumeRequest → Exec (State S M) Volume
  create_volume req = do
    reject (req.name == "") (invalid "CreateVolume Name must be provided")
    reject (is_empty req.volume_capabilities)
        (invalid "CreateVolume Volume capabilities must be provided")
    let violations = validate_capabilities sets req.volume_capabilities
    reject (not (is_empty violations))
        (invalid ("volume capabilities cannot be satisified: " <> join violations))
    vcd ← parameter vcd_param req.parameters
    storage ← parameter storage_profile_param req.parameters
    size ← requested_size req.capacity_range
    created ← attempt (on_vcl (vcl.create_disk vcd req.name storage size))
    elim created [
      | ok _ ↦ pure (created_volume req.name vcd size)
      | err e ↦
          if is_disk_already_exists e then pure (created_volume req.name vcd size) else raise e
    ]

-- An entry of the answer has no topology.
abbrev pub entry : VolumeWithCap → Volume
entry volume = record {
  volume_id = volume.name;
  capacity_bytes = bytes volume.cap;
  accessible_topology = [];
}

module _ {S M : Type 0} (vcl : VcdService S) where
  unfoldable pub delete_volume : String → Exec (State S M) (Unit {0})
  delete_volume volume_id = do
    reject (volume_id == "") (invalid "DeleteVolume Volume ID must be provided")
    deleted ← attempt (on_vcl (vcl.delete_disk volume_id))
    elim deleted [ ok _ ↦ pure tt | err e ↦ raise (status internal e) ]

  unfoldable pub list_volumes : Exec (State S M) (List Volume)
  list_volumes = do volumes ← on_vcl vcl.list_volumes; pure (map entry volumes)
