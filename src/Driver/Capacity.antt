-- ===== src/Driver/Capacity.antt =====
-- `extractStorage` of internal/driver/disk.go: the size of a volume from a requested range.
pub mod Laws
pub mod Format
use vcd_csi.Prelude.{◌&&◌, Bool, not, Option, none, some, if◌then◌else◌}
use vcd_csi.Go.Int.{ℤ, pos, eq_ℤ, ltb_ℤ}
use vcd_csi.Go.Error.{Error, errorf, number, end}
use vcd_csi.Go.Exec.{Result, ok, err}
use vcd_csi.StorageSize.{StorageSize, new_storage_size}
use vcd_csi.Csi.{CapacityRange}

abbrev pub minimum_volume_size_in_bytes : ℤ
minimum_volume_size_in_bytes = pos 4194304

abbrev pub maximum_volume_size_in_bytes : ℤ
maximum_volume_size_in_bytes = pos 4398046511104

-- 5 * giB
abbrev pub default_volume_size_in_bytes : ℤ
default_volume_size_in_bytes = pos 5368709120

-- The messages name the sizes; `formatBytes`, which prints them, is not modelled.
abbrev limit_below_required : ℤ → ℤ → Error
limit_below_required limit required =
    errorf "limit (%v) can not be less than required (%v) size" (number limit (number required end))

abbrev required_below_minimum : ℤ → Error
required_below_minimum required =
    errorf "required (%v) can not be less than minimum supported volume size (%v)"
      (number required (number minimum_volume_size_in_bytes end))

abbrev limit_below_minimum : ℤ → Error
limit_below_minimum limit =
    errorf "limit (%v) can not be less than minimum supported volume size (%v)"
      (number limit (number minimum_volume_size_in_bytes end))

abbrev required_above_maximum : ℤ → Error
required_above_maximum required =
    errorf "required (%v) can not exceed maximum supported volume size (%v)"
      (number required (number maximum_volume_size_in_bytes end))

abbrev limit_above_maximum : ℤ → Error
limit_above_maximum limit =
    errorf "limit (%v) can not exceed maximum supported volume size (%v)"
      (number limit (number maximum_volume_size_in_bytes end))

unfoldable pub extract_range : ℤ → ℤ → Result StorageSize
extract_range required limit =
    let required_set = ltb_ℤ (pos 0) required in
    let limit_set = ltb_ℤ (pos 0) limit in
    if not required_set && not limit_set
    then ok (new_storage_size default_volume_size_in_bytes)
    else if required_set && limit_set && ltb_ℤ limit required
    then err (limit_below_required limit required)
    else if required_set && not limit_set && ltb_ℤ required minimum_volume_size_in_bytes
    then err (required_below_minimum required)
    else if limit_set && ltb_ℤ limit minimum_volume_size_in_bytes
    then err (limit_below_minimum limit)
    else if required_set && ltb_ℤ maximum_volume_size_in_bytes required
    then err (required_above_maximum required)
    else if not required_set && limit_set && ltb_ℤ maximum_volume_size_in_bytes limit
    then err (limit_above_maximum limit)
    else if required_set && limit_set && eq_ℤ required limit
    then ok (new_storage_size required)
    else if required_set
    then ok (new_storage_size required)
    else if limit_set
    then ok (new_storage_size limit)
    else ok (new_storage_size default_volume_size_in_bytes)

unfoldable pub extract_storage : Option CapacityRange → Result StorageSize
extract_storage none = ok (new_storage_size default_volume_size_in_bytes)
extract_storage (some r) = extract_range r.required_bytes r.limit_bytes
