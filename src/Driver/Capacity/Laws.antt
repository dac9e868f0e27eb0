-- ===== src/Driver/Capacity/Laws.antt =====
-- Which ranges are accepted, and what is made of them.
use vcd_csi.Prelude.{zero, suc, ◌≡◌, arith}
use vcd_csi.Go.Int.{ℤ, pos, negsuc, ◌<ℤ◌, ◌≤ℤ◌}
use vcd_csi.Go.Exec.{Result, ok, err}
use vcd_csi.StorageSize.{StorageSize, new_storage_size}
use vcd_csi.Driver.Capacity.{
  extract_range, minimum_volume_size_in_bytes, maximum_volume_size_in_bytes,
  default_volume_size_in_bytes,
}

-- What an accepted range must satisfy. A value that is not positive is not set.
abbrev pub IsAccepted : ℤ → ℤ → Type 0
IsAccepted required limit =
    (pos 0 <ℤ limit → minimum_volume_size_in_bytes ≤ℤ limit × required ≤ℤ limit)
    × (pos 0 <ℤ required → required ≤ℤ maximum_volume_size_in_bytes)
    × (pos 0 <ℤ required → limit ≤ℤ pos 0 → minimum_volume_size_in_bytes ≤ℤ required)
    × (required ≤ℤ pos 0 → limit ≤ℤ maximum_volume_size_in_bytes)

-- The size of an accepted range.
abbrev pub Chosen : ℤ → ℤ → ℤ → Type 0
Chosen required limit b =
    (pos 0 <ℤ required → b ≡ required)
    × (required ≤ℤ pos 0 → pos 0 <ℤ limit → b ≡ limit)
    × (required ≤ℤ pos 0 → limit ≤ℤ pos 0 → b ≡ default_volume_size_in_bytes)

abbrev pub Extracted : ℤ → ℤ → Result StorageSize → Type 0
Extracted required limit (ok s) = IsAccepted required limit × Chosen required limit s.b
Extracted required limit (err e) = ¬ IsAccepted required limit

-- A range is accepted exactly if a positive limit is at least the minimum and the required size, a
-- positive required size is at most the maximum, and at least the minimum where no limit is
-- positive, and a limit alone is at most the maximum; the size is then the required one, else the
-- limit, else the default.
pub extract_range-Extracted :
    (required limit : ℤ) → Extracted required limit (extract_range required limit)
unfolding extract_range new_storage_size
extract_range-Extracted (pos zero) (pos zero) = ground arith
extract_range-Extracted (pos zero) (pos (suc l)) = ground arith
extract_range-Extracted (pos (suc r)) (pos zero) = ground arith
extract_range-Extracted (pos (suc r)) (pos (suc l)) = ground arith
extract_range-Extracted (pos zero) (negsuc l) = ground arith
extract_range-Extracted (pos (suc r)) (negsuc l) = ground arith
extract_range-Extracted (negsuc r) (pos zero) = ground arith
extract_range-Extracted (negsuc r) (pos (suc l)) = ground arith
extract_range-Extracted (negsuc r) (negsuc l) = ground arith
