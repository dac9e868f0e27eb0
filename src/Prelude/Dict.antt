-- ===== src/Prelude/Dict.antt =====
-- Go's `map[string]V` as an association list in the order of insertion, with at most one entry
-- of a key where it is built by `insert`.
use mathlib.Core.Path.{◌≡◌, refl}
use mathlib.Core.Option.{Option, none, some}
use mathlib.Core.List.{List, [], ◌∷◌}
use Prim.Native.String.{String}
use native.Mathlib.Omega.{arith}
use text.Mathlib.Text.{◌==◌}
use text.Mathlib.TextEquality.{eq_iff}
use vcd_csi.Prelude.Tests.{if◌then◌else◌}

abbrev pub Dict {ℓ} : Type ℓ → Type ℓ
Dict V = List (String × V)

module _ {ℓ} {V : Type ℓ} where
  -- `v, ok := m[key]`
  unfoldable pub lookup : String → Dict V → Option V
  lookup key [] = none
  lookup key ((key', value') ∷ dict) = if key' == key then some value' else lookup key dict

  -- `m[key] = value`
  unfoldable pub insert : String → V → Dict V → Dict V
  insert key value [] = (key, value) ∷ []
  insert key value ((key', value') ∷ dict) =
      let rest = insert key value dict in
      if key' == key then (key, value) ∷ dict else (key', value') ∷ rest

  -- `delete(m, key)`
  unfoldable pub delete : String → Dict V → Dict V
  delete key [] = []
  delete key ((key', value') ∷ dict) =
      let rest = delete key dict in if key' == key then rest else (key', value') ∷ rest

  pub lookup-insert :
      (key asked : String) (value : V) (dict : Dict V)
      → lookup asked (insert key value dict)
        ≡ (if key == asked then some value else lookup asked dict)
  unfolding lookup insert
  lookup-insert key asked value [] = refl
  lookup-insert key asked value ((key', value') ∷ dict) = ground (
    arith,
    lookup-insert key asked value dict,
    eq_iff key asked,
    eq_iff key' key,
    eq_iff key' asked,
  )

  pub lookup-delete :
      (key asked : String) (dict : Dict V)
      → lookup asked (delete key dict) ≡ (if key == asked then none else lookup asked dict)
  unfolding lookup delete
  lookup-delete key asked [] = ground arith
  lookup-delete key asked ((key', value') ∷ dict) =
      ground
        (arith, lookup-delete key asked dict, eq_iff key asked, eq_iff key' key, eq_iff key' asked)
