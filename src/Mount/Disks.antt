-- ===== src/Mount/Disks.antt =====
-- `GetDiskUnit`, `GetDiskgNameBySizeAndUnit` and `extractUnitNumForScsi`: which device of the host
-- is the disk at a unit.
pub mod Laws
pub mod Lookup
pub mod Older
use vcd_csi.Prelude.{
  ℕ, String, ◌<>◌, List, [], ◌∷◌, Bool, true, false, eqb, keep, length, ◌==◌, if◌then◌else◌,
}
use vcd_csi.Go.Int.{pos}
use vcd_csi.Go.Error.{Error, new, errorf, number, end}
use vcd_csi.Go.Exec.{Result, ok, err, Exec, pure, raise, returned, ◌>>=◌}
use vcd_csi.Mount.Text.{split, parse_uint}
use vcd_csi.Mount.Host.{Host, BlockDisk, call}

unfoldable pub fifth : List String → String
fifth (a ∷ b ∷ c ∷ d ∷ e ∷ rest) = e
fifth _ = ""

-- The part of a bus path behind its fourth colon.
unfoldable pub extract_unit_num_for_scsi : String → String
unfolding fifth
extract_unit_num_for_scsi bus = fifth (split bus 58)

abbrev pub at_unit : String → BlockDisk → Bool
at_unit unit disk = extract_unit_num_for_scsi disk.bus_path == unit

abbrev pub device : BlockDisk → String
device disk = "/dev/" <> disk.name

abbrev ambiguous : List BlockDisk → Error
ambiguous disks =
    errorf
      "disk not match by filter for unit number, matched result len: %v, but we want only 1 match"
      (number (pos (length disks)) end)

-- The answer for the disks that match the unit.
unfoldable pub only_match : List BlockDisk → Result String
only_match [] = err (new "cannot find disk by size")
only_match (disk ∷ []) = ok (device disk)
only_match disks = err (ambiguous disks)

-- The answer for the disks of one size that match the unit.
unfoldable pub unique_match : List BlockDisk → Result String
unique_match (disk ∷ []) = ok (device disk)
unique_match disks = err (ambiguous disks)

-- The answer of the older lookup for the disks that match the size.
unfoldable pub only_match_of_size : String → List BlockDisk → Result String
only_match_of_size unit [] = err (new "cannot find disk by size")
only_match_of_size unit (disk ∷ []) =
    if at_unit unit disk
    then ok (device disk)
    else err (new "disk matched by size, but unit num is not the same")
only_match_of_size unit disks = unique_match (keep (at_unit unit) disks)

module _ {H : Type 0} (host : Host H) where
  abbrev lift : {A : Type 0} → Result A → Exec H A
  lift r h = (returned r, h)

  -- The size and the bus are only logged.
  unfoldable pub get_disk_unit : String → String → String → Exec H String
  get_disk_unit size unit bus = do
    disks ← call host.block
    lift (only_match (keep (at_unit unit) disks))

  unfoldable pub get_disk_name_by_size_and_unit : String → String → String → Exec H String
  get_disk_name_by_size_and_unit size unit bus = do
    wanted ← lift (parse_uint size)
    disks ← call host.block
    lift (only_match_of_size unit (keep (λ disk. eqb disk.size_bytes wanted) disks))
