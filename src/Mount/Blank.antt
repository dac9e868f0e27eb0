-- ===== src/Mount/Blank.antt =====
-- What must stand before a command of internal/mount/mounter.go that makes a file system, by the record
-- of commands. The operations are held against it in the children.
pub mod Others
pub mod Format
pub mod Session
use text.Mathlib.Text.{starts_with}
use vcd_csi.Prelude.{
  String, ◌<>◌, List, [], ◌∷◌, ◌≡◌, ◌⊎◌, inl, inr, refl, Bool, true, false, Bool-cases, ◌||◌, arith,
  ◌==◌, if◌then◌else◌,
}
use vcd_csi.Go.Exec.{Result, ok, err, Exec, pure, raise, ◌>>=◌, zoom}
use vcd_csi.Go.Exec.Runs.{
  Runs, Runs-pure, Runs-raise, Runs-deref, Runs-bind, Runs-then, Runs-if, Runs-result, Runs-option,
  Runs-attempt_bind,
}
use vcd_csi.Go.Exec.Ensures.{
  Ensures, Ensures-Runs, Runs-Ensures, Ensures-bind, Ensures-if, Ensures-raise, Ensures-pure,
  Ensures-attempt, Ensures-zoom, Answer,
}
use vcd_csi.Go.Exec.Keeps.{
  Keeps, Keeps-pure, Keeps-raise, Keeps-bind, Keeps-if, Keeps-attempt, Keeps-Runs, Keeps-zoom,
}
use vcd_csi.Driver.State.{State, on_host}
use vcd_csi.Driver.Node.{format_once, mount_once, unmount_once, with_status, internal_error}
use vcd_csi.Driver.Node.Keeps.{KeepsHost}
use vcd_csi.Driver.Node.Session.{NodeRequest, node_serve, node_serve-keeps}
use vcd_csi.Mount.Host.{
  Host, LookPath, present, missing, unreadable, Run, succeeded, exited, failed, Output, FileSystem,
  call, ask,
}
use vcd_csi.Mount.Commands
use vcd_csi.Mount.Disks
use vcd_csi.Mount.Statistics
use vcd_csi.Mount.Statistics.{read_size, block_device_statistics}
use vcd_csi.Mount.Text.{parse_int, trim_space}
use vcd_csi.Mount.Commands.{
  require_path, require_text, execute, read_status, mkfs_args, find_target, read_mounts, explained,
  make_target,
}
use vcd_csi.Mount.Handler.{new_mounter}
use vcd_csi.Mount.Trace.{Event, looked, ran, checked, Traced, traced, silent}

-- The events before a command that makes a file system on the last argument: `blkid` has just said of
-- the same device that it found nothing on it, and the command was then found.
abbrev pub IsBlank : String → List String → List Event → Type 0
IsBlank cmd args (looked cmd' present ∷ checked check source (exited code e) ∷ t) =
    (cmd' ≡ cmd) × (check ≡ "blkid") × (code ≡ 2) × ((args ≡ source) ⊎ (args ≡ "-F" ∷ source))
IsBlank cmd args _ = ⊥

abbrev pub Guard : Event → List Event → Type 0
Guard (ran cmd args output) t = if starts_with cmd "mkfs." then IsBlank cmd args t else Unit
Guard _ t = Unit

abbrev pub IsGuarded : List Event → Type 0
IsGuarded [] = Unit
IsGuarded (e ∷ t) = Guard e t × IsGuarded t

abbrev pub Blank : {S H : Type 0} → State S (Traced H) → Type 0
Blank s = IsGuarded s.host.events

-- The same of a host alone.
abbrev pub Safe : {H : Type 0} → Traced H → Type 0
Safe t = IsGuarded t.events
