-- ===== src/Mount/Disks/Lookup.antt =====
-- Which device the lookup by a unit answers with.
use vcd_csi.Prelude.{String, List, [], ◌∷◌, ◌≡◌, ◌≢◌, refl, keep}
use vcd_csi.Go.Exec.{Result, ok, err, Outcome, returned, panicked, blocked, ◌>>=◌}
use vcd_csi.Mount.Host.{Host, BlockDisk, call}
use vcd_csi.Mount.Disks.{at_unit, device, only_match, get_disk_unit}

-- The answer for some disks: the device of the only one, or an error if there is not just one.
abbrev pub Only : List BlockDisk → Result String → Type 0
Only disks (ok path) = (disk : BlockDisk) × (disks ≡ disk ∷ []) × (path ≡ device disk)
Only disks (err e) = (disk : BlockDisk) → disks ≢ disk ∷ []

abbrev pub Answers : (Result String → Type 0) → Outcome String → Type 0
Answers Q (returned r) = Q r
Answers Q panicked = ⊥
Answers Q blocked = ⊥

only_match-Only : (disks : List BlockDisk) → Only disks (only_match disks)
unfolding only_match
only_match-Only [] = λ disk e. cc
only_match-Only (disk ∷ []) = (disk, refl, refl)
only_match-Only (disk ∷ other ∷ disks) = λ d e. cc

module _ {H : Type 0} (host : Host H) where
  -- If the host lists its disks, the lookup of a unit answers, with the device of the disk at that
  -- unit if there is exactly one, and with an error otherwise.
  pub get_disk_unit-Only :
      (size unit bus : String) (disks : List BlockDisk) (h h' : H)
      → host.block h ≡ (ok disks, h')
      → Answers (Only (keep (at_unit unit) disks)) (get_disk_unit host size unit bus h).0
  unfolding get_disk_unit call ◌>>=◌
  get_disk_unit-Only size unit bus disks h h' e = rw e (only_match-Only (keep (at_unit unit) disks))
