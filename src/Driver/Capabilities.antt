-- ===== src/Driver/Capabilities.antt =====
-- `validateCapabilities` of internal/driver/disk.go. The set of violations is Kubernetes'
-- `sets.String`, which the repository does not hold.
pub mod Laws
use vcd_csi.Prelude.{
  String, ◌<>◌, List, [], ◌∷◌, Bool, true, false, ◌≡◌, ◌≢◌, ◌↔◌, arith, All, if◌then◌else◌,
}
use vcd_csi.Csi.{
  Mode, unknown, single_node_writer, single_node_reader_only, multi_node_reader_only,
  multi_node_single_writer, multi_node_multi_writer, AccessType, unset, block, mount,
  VolumeCapability, get_mode,
}

-- `k8s.io/apimachinery/pkg/util/sets`, as far as it is used
pub record StringSets (Set : Type 0) : Type 0 where
  pub new_string : Set
  pub insert : String → Set → Set
  pub list : Set → List String

-- What its documentation says of the sorted list of a set: a new set has no element, and a set has
-- the element that was inserted.
pub record IsLawful {Set : Type 0} (sets : StringSets Set) : Type 0 where
  pub list-new_string : sets.list sets.new_string ≡ []
  pub list-insert : (x : String) (s : Set) → sets.list (sets.insert x s) ≢ []

-- `supportedAccessMode`
abbrev pub supported : Mode → Bool
supported single_node_writer = true
supported _ = false

-- `Mode.String()`, which the protocol's generated code defines
unfoldable pub mode_name : Mode → String
mode_name unknown = "UNKNOWN"
mode_name single_node_writer = "SINGLE_NODE_WRITER"
mode_name single_node_reader_only = "SINGLE_NODE_READER_ONLY"
mode_name multi_node_reader_only = "MULTI_NODE_READER_ONLY"
mode_name multi_node_single_writer = "MULTI_NODE_SINGLE_WRITER"
mode_name multi_node_multi_writer = "MULTI_NODE_MULTI_WRITER"

module _ {Set : Type 0} (sets : StringSets Set) where
  unfoldable pub check_mode : Mode → Set → Set
  unfolding mode_name
  check_mode mode violations =
      if supported mode
      then violations
      else sets.insert ("unsupported access mode " <> mode_name mode) violations

  unfoldable pub check_access_type : AccessType → Set → Set
  check_access_type block violations = violations
  check_access_type (mount m) violations = violations
  check_access_type unset violations = sets.insert "unsupported access type" violations

  unfoldable pub check_capabilities : List VolumeCapability → Set → Set
  unfolding check_mode check_access_type
  check_capabilities [] violations = violations
  check_capabilities (capability ∷ caps) violations =
      check_capabilities caps
        (check_access_type capability.access_type (check_mode (get_mode capability) violations))

  unfoldable pub validate_capabilities : List VolumeCapability → List String
  unfolding check_capabilities
  validate_capabilities caps = sets.list (check_capabilities caps sets.new_string)
