-- ===== src/Driver/Capabilities/Laws.antt =====
-- Which capabilities of a volume are accepted.
use vcd_csi.Prelude.{◌<>◌, ap, ◌∙◌, List, [], ◌∷◌, true, ◌≡◌, ◌≢◌, ◌↔◌, refl, arith, All}
use vcd_csi.Csi.{Mode, single_node_writer, AccessType, unset, VolumeCapability, get_mode}
use vcd_csi.Driver.Capabilities.{
  StringSets, IsLawful, supported, mode_name, check_mode, check_access_type, check_capabilities,
  validate_capabilities,
}

-- A volume that one node writes, as a block device or through a file system.
abbrev pub IsSupported : VolumeCapability → Type 0
IsSupported c = (get_mode c ≡ single_node_writer) × (c.access_type ≢ unset)

supported_single : (m : Mode) → supported m ≡ true → m ≡ single_node_writer
supported_single m h = ground arith

module _ {Set : Type 0} (sets : StringSets Set) (lawful : IsLawful sets) where
  check_mode-list :
      (m : Mode) (v : Set)
      → sets.list (check_mode sets m v) ≡ []
      → (m ≡ single_node_writer) × (sets.list v ≡ [])
  unfolding check_mode
  check_mode-list m v h =
      ground (
        arith,
        lawful.list-insert ("unsupported access mode " <> mode_name m) v,
        supported_single m,
      )

  check_access_type-list :
      (t : AccessType) (v : Set)
      → sets.list (check_access_type sets t v) ≡ []
      → (t ≢ unset) × (sets.list v ≡ [])
  unfolding check_access_type
  check_access_type-list t v h = ground (arith, lawful.list-insert "unsupported access type" v)

  check_capabilities-list :
      (caps : List VolumeCapability) (v : Set)
      → sets.list (check_capabilities sets caps v) ≡ []
      → All IsSupported caps × (sets.list v ≡ [])
  unfolding check_capabilities
  check_capabilities-list [] v h = (tt, h)
  check_capabilities-list (c ∷ caps) v h =
      let k = check_capabilities-list caps _ h in
      let t = check_access_type-list c.access_type _ k.1 in
      let m = check_mode-list (get_mode c) v t.1 in (((m.0, t.0), k.0), m.1)

  check_capabilities-IsSupported :
      (caps : List VolumeCapability) (v : Set)
      → All IsSupported caps
      → check_capabilities sets caps v ≡ v
  unfolding check_capabilities check_mode check_access_type
  check_capabilities-IsSupported [] v h = refl
  check_capabilities-IsSupported (c ∷ caps) v (h, hs) =
      ground (arith, check_capabilities-IsSupported caps v hs)

  -- With sets that are empty when new and not empty after an insertion, no violation is reported
  -- exactly if every capability has the mode of a single node that writes and names an access
  -- type.
  pub validate_capabilities-IsSupported :
      (caps : List VolumeCapability) → (validate_capabilities sets caps ≡ []) ↔ All IsSupported caps
  unfolding validate_capabilities
  validate_capabilities-IsSupported caps = (
    λ h. (check_capabilities-list caps _ h).0,
    λ h.
        ap sets.list (check_capabilities-IsSupported caps sets.new_string h)
        ∙ lawful.list-new_string,
  )
