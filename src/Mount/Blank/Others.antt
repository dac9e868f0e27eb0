-- ===== src/Mount/Blank/Others.antt =====
-- The operations of internal/mount/mounter.go but `Format`, against the guard.
use text.Mathlib.Text.{starts_with}
use vcd_csi.Prelude.{String, List, [], ◌∷◌, ◌≡◌, refl, Bool, false, ◌||◌, arith, ◌==◌}
use vcd_csi.Go.Exec.{Result, ◌>>=◌}
use vcd_csi.Go.Exec.Runs.{
  Runs, Runs-pure, Runs-raise, Runs-deref, Runs-bind, Runs-then, Runs-if, Runs-result, Runs-option,
  Runs-attempt_bind,
}
use vcd_csi.Mount.Host.{Host, FileSystem, call, ask}
use vcd_csi.Mount.Commands
use vcd_csi.Mount.Disks
use vcd_csi.Mount.Statistics
use vcd_csi.Mount.Statistics.{read_size, block_device_statistics}
use vcd_csi.Mount.Text.{parse_int, trim_space}
use vcd_csi.Mount.Commands.{
  require_path, require_text, execute, read_status, mkfs_args, find_target, read_mounts, explained,
  make_target,
}
use vcd_csi.Mount.Trace.{Traced, traced, silent}
use vcd_csi.Mount.Blank.{Safe}

module _ {H : Type 0} (host : Host H) where
  pub require_text-Runs :
      (s message : String) → Runs {S = Traced H} Safe (require_text (traced host) s message)
  unfolding require_text
  require_text-Runs s message = Runs-if (s == "") _ _ (λ _. Runs-raise _) (λ _. Runs-pure tt)

  pub require_path-Runs : (cmd : String) → Runs Safe (require_path (traced host) cmd)
  unfolding require_path ask ◌>>=◌
  require_path-Runs cmd = record { keeps = λ s h. ground arith; ends = λ s h. ground arith }

  pub call-Runs : {A : Type 0} (f : H → Result A × H) → Runs {S = Traced H} Safe (call (silent f))
  unfolding call
  call-Runs f = record { keeps = λ s h. h; ends = λ s h e. cc }

  pub execute-Runs :
      (message cmd : String) (args : List String)
      → starts_with cmd "mkfs." ≡ false
      → Runs Safe (execute (traced host) message cmd args)
  unfolding execute ask ◌>>=◌
  execute-Runs message cmd args no_mkfs = record {
    keeps = λ s h. ground arith;
    ends = λ s h. ground arith;
  }

  pub find_target-Runs :
      (target : String) (file_systems : List FileSystem) (found : Bool)
      → Runs Safe (find_target (traced host) target file_systems found)
  unfolding find_target
  find_target-Runs target [] found = Runs-pure found
  find_target-Runs target (fs ∷ rest) found =
      Runs-if (fs.propagation == "shared") _ _
        (λ _. find_target-Runs target rest (found || fs.target == target)) (λ _. Runs-raise _)

  pub read_mounts-Runs : (target out : String) → Runs Safe (read_mounts (traced host) target out)
  unfolding read_mounts
  read_mounts-Runs target out =
      Runs-if (out == "") _ _ (λ _. Runs-pure false)
        λ _.
          Runs-result (host.unmarshal out) _ _
            (λ resp.
              Runs-bind _ _ (Runs-deref resp)
                λ file_systems. find_target-Runs target file_systems false)
            (λ e. Runs-raise _)

  pub output-Runs :
      (cmd : String) (args : List String)
      → starts_with cmd "mkfs." ≡ false
      → Runs Safe (ask ((traced host).combined_output cmd args))
  unfolding ask
  output-Runs cmd args no_mkfs = record { keeps = λ s h. (rw no_mkfs tt, h); ends = λ s h e. cc }

  pub is_mounted-Runs : (target : String) → Runs Safe (Commands.is_mounted (traced host) target)
  unfolding Commands.is_mounted
  is_mounted-Runs target = Runs-then _ _ (require_text-Runs _ _) (
      Runs-then _ _ (require_path-Runs "findmnt") (
        Runs-bind _ _ (output-Runs "findmnt" _ refl) λ output.
          Runs-option output.failure _ _ (read_mounts-Runs target output.out) λ e.
            Runs-if (trim_space output.out == "") _ _ (λ _. Runs-pure false) (λ _. Runs-raise _)))

  pub make_target-Runs :
      (target fs_type : String) → Runs Safe (make_target (traced host) target fs_type)
  unfolding make_target explained
  make_target-Runs target fs_type =
      Runs-if (fs_type == "") _ _
        (λ _.
          Runs-then _ _
            (Runs-attempt_bind _ _ _ (call-Runs _) (λ a. Runs-pure a) (λ e. Runs-raise _))
            (Runs-attempt_bind _ _ _ (call-Runs _) (λ a. Runs-pure a) (λ e. Runs-raise _)))
        (λ _. call-Runs _)

  pub mount-Runs :
      (source target fs_type : String) (options : List String)
      → Runs Safe (Commands.mount (traced host) source target fs_type options)
  unfolding Commands.mount
  mount-Runs source target fs_type options = Runs-then _ _ (require_text-Runs _ _) (
      Runs-then _ _ (require_text-Runs _ _)
        (Runs-then _ _ (make_target-Runs target fs_type) (execute-Runs _ "mount" _ refl)))

  pub unmount-Runs : (target : String) → Runs Safe (Commands.unmount (traced host) target)
  unfolding Commands.unmount
  unmount-Runs target = Runs-then _ _ (require_text-Runs _ _) (execute-Runs _ "umount" _ refl)

  pub is_block_device-Runs :
      (path : String) → Runs Safe (Statistics.is_block_device (traced host) path)
  unfolding Statistics.is_block_device
  is_block_device-Runs path = Runs-bind _ _ (call-Runs _) (λ mode. Runs-pure _)

  pub read_size-Runs : (out : String) → Runs Safe (read_size (traced host) out)
  unfolding read_size
  read_size-Runs out =
      Runs-result (parse_int (trim_space out)) _ _ (λ size. Runs-pure _) (λ e. Runs-raise _)

  pub get_statistics-Runs :
      (path : String) → Runs Safe (Statistics.get_statistics (traced host) path)
  unfolding Statistics.get_statistics block_device_statistics
  get_statistics-Runs path =
      Runs-attempt_bind _ _ _ (is_block_device-Runs path)
        (λ b.
          Runs-if b _ _
            (λ _. Runs-bind _ _ (output-Runs "blockdev" _ refl) λ output.
              Runs-option output.failure _ _ (read_size-Runs output.out) (λ e. Runs-raise _))
            (λ _. Runs-bind _ _ (call-Runs _) (λ statfs. Runs-pure _)))
        (λ e. Runs-raise _)

  pub get_disk_unit-Runs :
      (size unit bus : String) → Runs Safe (Disks.get_disk_unit (traced host) size unit bus)
  unfolding Disks.get_disk_unit
  get_disk_unit-Runs size unit bus =
      Runs-bind _ _ (call-Runs _) λ disks. record { keeps = λ s h. h; ends = λ s h e. cc }
