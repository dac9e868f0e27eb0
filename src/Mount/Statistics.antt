-- ===== src/Mount/Statistics.antt =====
-- `GetStatistics` and `IsBlockDevice` of internal/mount/mounter.go.
pub mod Bounds
use Prim.Native.Nat.{bit_and}
use vcd_csi.Prelude.{ℕ, String, [], ◌∷◌, Bool, none, some, eqb, if◌then◌else◌}
use vcd_csi.Go.Int.{ℤ, pos, wrap, times, minus}
use vcd_csi.Go.Error.{errorf, text, cause, end}
use vcd_csi.Go.Exec.{ok, err, Exec, pure, raise, attempt, ◌>>=◌}
use vcd_csi.Driver.State.{VolumeStatistics}
use vcd_csi.Mount.Text.{trim_space, parse_int}
use vcd_csi.Mount.Host.{Host, Statfs, call, ask}

-- `int64(n)`, of a `uint64`
abbrev pub int64 : ℕ → ℤ
int64 n = wrap (pos n)

unfoldable pub file_system_statistics : Statfs → VolumeStatistics
file_system_statistics statfs = record {
  available_bytes = times (int64 statfs.bavail) statfs.bsize;
  total_bytes = times (int64 statfs.blocks) statfs.bsize;
  used_bytes = times (minus (int64 statfs.blocks) (int64 statfs.bfree)) statfs.bsize;
  available_inodes = int64 statfs.ffree;
  total_inodes = int64 statfs.files;
  used_inodes = minus (int64 statfs.files) (int64 statfs.ffree);
}

-- Only the total is known of a block device.
unfoldable pub block_statistics : ℤ → VolumeStatistics
block_statistics size = record {
  available_bytes = pos 0;
  total_bytes = size;
  used_bytes = pos 0;
  available_inodes = pos 0;
  total_inodes = pos 0;
  used_inodes = pos 0;
}

module _ {H : Type 0} (host : Host H) where
  -- `(stat.Mode & unix.S_IFMT) == unix.S_IFBLK`
  unfoldable pub is_block_device : String → Exec H Bool
  is_block_device device_path = do
    mode ← call (host.stat device_path)
    pure (eqb (bit_and mode 0xf000) 0x6000)

  unfoldable pub read_size : String → Exec H VolumeStatistics
  read_size out = elim (parse_int (trim_space out)) [
    | ok size ↦ pure (block_statistics size)
    | err e ↦ raise (errorf "failed to parse size %s into int" (text (trim_space out) end))
  ]

  unfoldable pub block_device_statistics : String → Exec H VolumeStatistics
  block_device_statistics volume_path = do
    output ← ask (host.combined_output "blockdev" ("getsize64" ∷ volume_path ∷ []))
    elim output.failure [
      | none ↦ read_size output.out
      | some e ↦ raise (
          errorf "error when getting size of block volume at path %s: output: %s, err: %v"
            (text volume_path (text output.out (cause e end))))
    ]

  unfoldable pub get_statistics : String → Exec H VolumeStatistics
  get_statistics volume_path = do
    is_block ← attempt (is_block_device volume_path)
    elim is_block [
      | err e ↦ raise (
          errorf "failed to determine if volume %s is block device: %v"
            (text volume_path (cause e end)))
      | ok b ↦
          if b
          then block_device_statistics volume_path
          else (do statfs ← call (host.statfs volume_path); pure (file_system_statistics statfs))
    ]
