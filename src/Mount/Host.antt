-- ===== src/Mount/Host.antt =====
-- The host that the mounter works on: the operating system, the commands that it runs, the disks
-- that `ghw` lists and the JSON decoder, over an unknown state `H`.
use vcd_csi.Prelude.{ℕ, String, List, Option}
use vcd_csi.Go.Int.{ℤ}
use vcd_csi.Go.Error.{Error}
use vcd_csi.Go.Exec.{Result, returned, Exec, ok}

-- `exec.LookPath`; `missing` is `exec.ErrNotFound`
pub data LookPath : Type 0 where
  present : LookPath
  missing : LookPath
  unreadable : Error → LookPath

-- `cmd.Run()`: an `*exec.ExitError` has a status
pub data Run : Type 0 where
  succeeded : Run
  exited : ℕ → Error → Run
  failed : Error → Run

-- `CombinedOutput()`
pub record Output : Type 0 where
  pub out : String
  pub failure : Option Error

-- an entry of `findmntResponse`
pub record FileSystem : Type 0 where
  pub target : String
  pub propagation : String
  pub fs_type : String
  pub options : String

-- `ghw.Disk`
pub record BlockDisk : Type 0 where
  pub name : String
  pub size_bytes : ℕ
  pub bus_path : String

-- `unix.Statfs_t`
pub record Statfs : Type 0 where
  pub bavail : ℕ
  pub blocks : ℕ
  pub bfree : ℕ
  pub bsize : ℤ
  pub ffree : ℕ
  pub files : ℕ

pub record Host (H : Type 0) : Type 0 where
  pub look_path : String → H → LookPath × H
  pub combined_output : String → List String → H → Output × H
  pub run : String → List String → H → Run × H
  -- the directory of a path
  pub dir : String → String
  pub mkdir_all : String → ℕ → H → Result (Unit {0}) × H
  -- `os.OpenFile(name, os.O_CREATE, perm)`, and the close
  pub create_file : String → ℕ → H → Result (Unit {0}) × H
  -- the mode of `unix.Stat`
  pub stat : String → H → Result ℕ × H
  pub statfs : String → H → Result Statfs × H
  -- the disks of `ghw.Block()`
  pub block : H → Result (List BlockDisk) × H
  -- `json.Unmarshal` into a pointer, which a JSON `null` leaves nil
  pub unmarshal : String → Result (Option (List FileSystem))

module _ {H A : Type 0} where
  -- a call that fails by its error
  unfoldable pub call : (H → Result A × H) → Exec H A
  call f h = let (r, h') = f h in (returned r, h')

  -- a call whose answer is a value
  unfoldable pub ask : (H → A × H) → Exec H A
  ask f h = let (a, h') = f h in (returned (ok a), h')
