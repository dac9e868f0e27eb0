-- ===== src/Tests/Values.antt =====
-- Sizes, capacities, capabilities, the lock, paths and the mount table.
use vcd_csi.Prelude.{eq_iff, true, List, [], ◌∷◌, false, ◌≡◌, ◌↔◌, refl, some, All, arith}
use vcd_csi.Prelude.Dict.{lookup}
use vcd_csi.Go.Int.{pos}
use vcd_csi.Go.Exec.{returned, ok}
use vcd_csi.StorageSize.{bytes, mb, new_storage_size, new_storage_size_from_mb}
use vcd_csi.StorageSize.Laws.{bytes-from_mb, bytes-from_mb-mb}
use vcd_csi.Locker.{SimpleLock, put, is_locked, pop, new_simple_lock}
use vcd_csi.Locker.Laws.{holds, holds_lem}
use vcd_csi.Locker.View.{view, view_comm}
use vcd_csi.Csi.{VolumeCapability, single_node_writer, block}
use vcd_csi.Driver.Capacity.{extract_range}
use vcd_csi.Driver.Capacity.Laws.{Extracted, extract_range-Extracted}
use vcd_csi.Driver.Capabilities.{IsLawful, validate_capabilities}
use vcd_csi.Driver.Capabilities.Laws.{IsSupported, validate_capabilities-IsSupported}
use vcd_csi.Mount.Text.{split}
use vcd_csi.Mount.Commands.{join}
use vcd_csi.Mount.Disks.{extract_unit_num_for_scsi}
use vcd_csi.Mount.Disks.Laws.{split-join, extract_unit_num_for_scsi-join}
use vcd_csi.Mount.Host.{Host, BlockDisk}
use vcd_csi.Mount.Disks.{at_unit, only_match, get_disk_unit}
use vcd_csi.Mount.Host.{call}
use vcd_csi.Go.Exec.{◌>>=◌}
use vcd_csi.Mount.Disks.Lookup.{Only, Answers, get_disk_unit-Only}
use vcd_csi.Prelude.{keep}
use vcd_csi.Mount.Text.{parse_uint, unsigned, digits}
use vcd_csi.Mount.Host.{Statfs}
use vcd_csi.Mount.Disks.{get_disk_name_by_size_and_unit}
use vcd_csi.Mount.Disks.Older.{Agree, get_disk_name_by_size_and_unit-get_disk_unit}
use vcd_csi.Mount.Statistics.{file_system_statistics}
use vcd_csi.Mount.Statistics.Bounds.{Fits, file_system_statistics-Fits}
use vcd_csi.Tests.Fixtures.{host, listed_sets}

bytes-from_mb_example : bytes (new_storage_size_from_mb (pos 5120)) ≡ pos 5368709120
bytes-from_mb_example = bytes-from_mb 5120 (omega arith)

-- A request of 5,000,000 bytes makes a disk of 4,194,304.
bytes-from_mb-mb_example :
    bytes (new_storage_size_from_mb (mb (new_storage_size (pos 5000000)))) ≡ pos 4194304
bytes-from_mb-mb_example = bytes-from_mb-mb 5000000 (omega arith)

-- A lock with two keys.
abbrev waiting : SimpleLock
waiting = record { storage = ("c", true) ∷ ("a", true) ∷ [] }

holds_lem_example :
    (holds "b" (put "a" new_simple_lock) ≡ false)
    × ((is_locked "a" new_simple_lock).0 ≡ false)
    × (holds "b" (is_locked "a" new_simple_lock).1 ≡ false)
    × ((pop "a" new_simple_lock).0 ≡ false)
    × (holds "b" (pop "a" new_simple_lock).1 ≡ false)
unfolding new_simple_lock lookup
holds_lem_example = holds_lem "a" "b" new_simple_lock

-- The volumes "a" and "b" on it.
view_comm_example :
    (view (put "a" (put "b" waiting)) ≡ view (put "b" (put "a" waiting)))
    × ((is_locked "a" (put "b" waiting)).0 ≡ true)
    × (view (is_locked "a" (put "b" waiting)).1 ≡ view (put "b" (is_locked "a" waiting).1))
    × ((is_locked "a" (is_locked "b" waiting).1).0 ≡ true)
    × (view (is_locked "a" (is_locked "b" waiting).1).1
        ≡ view (is_locked "b" (is_locked "a" waiting).1).1)
    × (pop "a" waiting ≡ is_locked "a" waiting)
unfolding is_locked lookup
view_comm_example = view_comm "a" "b" waiting (λ e. ground (arith, e, eq_iff "a" "b"))

-- A required size below the minimum is accepted beside a limit.
extract_range-Extracted_example :
    Extracted (pos 1) (pos 8388608) (extract_range (pos 1) (pos 8388608))
extract_range-Extracted_example = extract_range-Extracted (pos 1) (pos 8388608)

small_range : extract_range (pos 1) (pos 8388608) ≡ ok (new_storage_size (pos 1))
unfolding extract_range
small_range = refl

listed_sets-IsLawful : IsLawful listed_sets
listed_sets-IsLawful = record { list-new_string = refl; list-insert = λ x s e. cc }

abbrev caps : List VolumeCapability
caps = record { access_mode = some single_node_writer; access_type = block } ∷ []

validate_capabilities-IsSupported_example :
    (validate_capabilities listed_sets caps ≡ []) ↔ All IsSupported caps
validate_capabilities-IsSupported_example =
    validate_capabilities-IsSupported listed_sets listed_sets-IsLawful caps

split-join_example : split (join ("pci" ∷ "scsi" ∷ []) ":") 58 ≡ "pci" ∷ "scsi" ∷ []
split-join_example =
    split-join "pci" ("scsi" ∷ [])
      ((refl, (refl, (refl, tt))), ((refl, (refl, (refl, (refl, tt)))), tt))

extract_unit_num_for_scsi-join_example :
    extract_unit_num_for_scsi (join ("0" ∷ "3" ∷ "0" ∷ "0" ∷ "8" ∷ "0" ∷ []) ":") ≡ "8"
extract_unit_num_for_scsi-join_example =
    extract_unit_num_for_scsi-join "0" "3" "0" "0" "8" ("0" ∷ [])
      ((refl, tt), ((refl, tt), ((refl, tt), ((refl, tt), ((refl, tt), ((refl, tt), tt))))))

-- Two disks of the host, of which one is at the unit 9.
abbrev disks : List BlockDisk
disks =
    record { name = "sda"; size_bytes = 1048576; bus_path = "0:3:0:0:0:0" }
    ∷ record { name = "sdb"; size_bytes = 1048576; bus_path = "0:3:0:0:9:0" }
    ∷ []

abbrev two_disks : Host (Unit {0})
two_disks = record host { block = λ h. (ok disks, h) }

get_disk_unit-Only_example :
    Answers (Only (keep (at_unit "9") disks)) (get_disk_unit two_disks "1048576" "9" "" tt).0
get_disk_unit-Only_example = get_disk_unit-Only two_disks "1048576" "9" "" disks tt tt refl

found_disk : (get_disk_unit two_disks "1048576" "9" "" tt).0 ≡ returned (ok "/dev/sdb")
unfolding get_disk_unit ◌>>=◌ call only_match extract_unit_num_for_scsi split
found_disk = refl

abbrev quarter_full : Statfs
quarter_full = record {
  bavail = 700;
  blocks = 1000;
  bfree = 750;
  bsize = pos 4096;
  ffree = 90;
  files = 100;
}

file_system_statistics-Fits_example :
    Fits
      (file_system_statistics quarter_full).used_bytes
      (file_system_statistics quarter_full).available_bytes
      (file_system_statistics quarter_full).total_bytes
    × Fits
        (file_system_statistics quarter_full).used_inodes
        (file_system_statistics quarter_full).available_inodes
        (file_system_statistics quarter_full).total_inodes
file_system_statistics-Fits_example =
    file_system_statistics-Fits quarter_full 4096 refl (omega arith) (omega arith) (omega arith)
      (omega arith) (omega arith) (omega arith)

get_disk_name_by_size_and_unit-get_disk_unit_example :
    Agree
      (get_disk_name_by_size_and_unit two_disks "1048576" "9" "" tt).0
      (get_disk_unit two_disks "1048576" "9" "" tt).0
unfolding parse_uint unsigned digits
get_disk_name_by_size_and_unit-get_disk_unit_example =
    get_disk_name_by_size_and_unit-get_disk_unit two_disks "1048576" "9" "" 1048576 disks tt tt refl
      refl (λ h. refl, (λ h. refl, tt))
