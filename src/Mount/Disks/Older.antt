-- ===== src/Mount/Disks/Older.antt =====
-- The two lookups of a device, `GetDiskUnit` and `GetDiskgNameBySizeAndUnit`, against each other.
use vcd_csi.Prelude.{
  ℕ, String, List, [], ◌∷◌, ◌≡◌, refl, Bool, true, Bool-cases, inl, inr, arith, eqb, keep, All,
}
use mathlib.Core.Path.{subst}
use vcd_csi.Go.Exec.{ok, err, Outcome, returned, ◌>>=◌}
use vcd_csi.Mount.Text.{parse_uint}
use vcd_csi.Mount.Host.{Host, BlockDisk, call}
use vcd_csi.Mount.Disks.{
  at_unit, only_match, unique_match, only_match_of_size, get_disk_unit,
  get_disk_name_by_size_and_unit,
}

-- Two answers with the same path, or two errors.
abbrev pub Agree : Outcome String → Outcome String → Type 0
Agree (returned (ok a)) (returned (ok b)) = a ≡ b
Agree (returned (err e)) (returned (err e')) = Unit
Agree _ _ = ⊥

-- A test that implies another is not changed by it.
keep-keep :
    {A : Type 0} (p q : A → Bool) (xs : List A)
    → All (λ x. p x ≡ true → q x ≡ true) xs
    → keep p (keep q xs) ≡ keep p xs
keep-keep p q [] h = refl
keep-keep p q (x ∷ xs) h = ground (arith, h.0, keep-keep p q xs h.1)

unique_match-Agree :
    (disks : List BlockDisk) → Agree (returned (unique_match disks)) (returned (only_match disks))
unfolding unique_match only_match
unique_match-Agree [] = tt
unique_match-Agree (disk ∷ []) = refl
unique_match-Agree (disk ∷ other ∷ disks) = tt

only_match_of_size-Agree :
    (unit : String) (disks : List BlockDisk)
    → Agree
        (returned (only_match_of_size unit disks))
        (returned (only_match (keep (at_unit unit) disks)))
unfolding only_match_of_size only_match
only_match_of_size-Agree unit [] = tt
only_match_of_size-Agree unit (disk ∷ []) = elim (Bool-cases (at_unit unit disk)) [
  | inl t ↦ rw t refl
  | inr f ↦ rw f tt
]
only_match_of_size-Agree unit (disk ∷ other ∷ disks) =
    unique_match-Agree (keep (at_unit unit) (disk ∷ other ∷ disks))

module _ {H : Type 0} (host : Host H) where
  -- If the size is a number, the host lists its disks, and each disk at the unit has that size,
  -- then the lookup by size and unit and the lookup by unit alone answer with the same device or
  -- both with an error.
  pub get_disk_name_by_size_and_unit-get_disk_unit :
      (size unit bus : String) (wanted : ℕ) (disks : List BlockDisk) (h h' : H)
      → parse_uint size ≡ ok wanted
      → host.block h ≡ (ok disks, h')
      → All (λ disk. at_unit unit disk ≡ true → eqb disk.size_bytes wanted ≡ true) disks
      → Agree
          (get_disk_name_by_size_and_unit host size unit bus h).0
          (get_disk_unit host size unit bus h).0
  unfolding get_disk_unit get_disk_name_by_size_and_unit call ◌>>=◌
  get_disk_name_by_size_and_unit-get_disk_unit size unit bus wanted disks h h' e b sizes = rw e (
      rw b (
        subst
          (λ units.
            Agree
              (returned (only_match_of_size unit (keep (λ disk. eqb disk.size_bytes wanted) disks)))
              (returned (only_match units)))
          (keep-keep (at_unit unit) (λ disk. eqb disk.size_bytes wanted) disks sizes)
          (only_match_of_size-Agree unit (keep (λ disk. eqb disk.size_bytes wanted) disks))))
