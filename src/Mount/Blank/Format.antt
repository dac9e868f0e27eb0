-- ===== src/Mount/Blank/Format.antt =====
-- `IsFormatted` and `Format` of internal/mount/mounter.go, one after the other, against the guard.
use vcd_csi.Prelude.{String, ◌<>◌, List, [], ◌∷◌, ◌≡◌, refl, Bool, true, false, arith, ◌==◌}
use vcd_csi.Go.Exec.{◌>>=◌}
use vcd_csi.Go.Exec.Ensures.{
  Ensures, Ensures-Runs, Ensures-bind, Ensures-if, Ensures-raise, Ensures-pure,
}
use vcd_csi.Mount.Host.{Host, present, missing, unreadable, Run, succeeded, exited, failed, ask}
use vcd_csi.Mount.Commands
use vcd_csi.Mount.Commands.{
  require_path, require_text, execute, read_status, mkfs_args, find_target, read_mounts, explained,
  make_target,
}
use vcd_csi.Mount.Trace.{Event, looked, ran, checked, Traced, traced}
use vcd_csi.Mount.Blank.{IsBlank, Safe}
use vcd_csi.Mount.Blank.Others.{require_text-Runs, require_path-Runs}

-- `blkid` has just found nothing on the device.
abbrev pub IsUnformatted : String → List Event → Type 0
IsUnformatted source (checked check args (exited code e) ∷ t) =
    (check ≡ "blkid") × (code ≡ 2) × (args ≡ source ∷ [])
IsUnformatted source _ = ⊥

abbrev pub Reads : {H : Type 0} → String → Bool → Traced H → Type 0
Reads source true t = Safe t
Reads source false t = Safe t × IsUnformatted source t.events

-- The last command that was run for its status.
abbrev pub HasChecked : String → Run → List Event → Type 0
HasChecked source r (checked check args r' ∷ t) =
    (check ≡ "blkid") × (args ≡ source ∷ []) × (r' ≡ r)
HasChecked source r _ = ⊥

-- The command has just been found for a device on which nothing was found.
abbrev pub IsReady : String → String → List Event → Type 0
IsReady cmd source (looked cmd' present ∷ t) = (cmd' ≡ cmd) × IsUnformatted source t
IsReady cmd source _ = ⊥

module _ {H : Type 0} (host : Host H) where
  pub read_status-Ensures :
      (source : String) (r : Run)
      → Ensures {S = Traced H}
          (λ t. Safe t × HasChecked source r t.events)
          (read_status (traced host) source r)
          (Reads source)
          Safe
  unfolding read_status ◌>>=◌
  read_status-Ensures source r = record { at = λ t h. ground arith }

  pub run-Ensures :
      (source : String)
      → Ensures Safe
          (ask ((traced host).run "blkid" (source ∷ [])))
          (λ r t. Safe t × HasChecked source r t.events)
          Safe
  unfolding ask
  run-Ensures source = record { at = λ t h. ((tt, h), (refl, refl, refl)) }

  pub is_formatted-Ensures :
      (source : String)
      → Ensures Safe (Commands.is_formatted (traced host) source) (Reads source) Safe
  unfolding Commands.is_formatted
  is_formatted-Ensures source = Ensures-bind _ (Ensures-Runs (require_text-Runs host source _)) λ _.
      Ensures-bind _ (Ensures-Runs (require_path-Runs host "blkid"))
        λ _. Ensures-bind _ (run-Ensures source) (read_status-Ensures source)

  pub require_mkfs-Ensures :
      (cmd source : String)
      → Ensures
          (λ t. Safe t × IsUnformatted source t.events)
          (require_path (traced host) cmd)
          (λ _ t. Safe t × IsReady cmd source t.events)
          Safe
  unfolding require_path ask ◌>>=◌
  require_mkfs-Ensures cmd source = record { at = λ t h. ground arith }

  pub require_text-Ensures :
      (P : List Event → Type 0) (text message : String)
      → Ensures
          (λ t. Safe t × P t.events)
          (require_text (traced host) text message)
          (λ _ t. Safe t × P t.events)
          Safe
  unfolding require_text
  require_text-Ensures P text message =
      Ensures-if (text == "") _ _ (λ _. Ensures-raise _ (λ t h. h.0))
        (λ _. Ensures-pure tt (λ t h. h))

  IsBlank-IsReady :
      (cmd source fs_type : String) (t : List Event)
      → IsReady cmd source t
      → IsBlank cmd (mkfs_args (traced host) source fs_type) t
  IsBlank-IsReady cmd source fs_type (looked cmd' present ∷ checked check args (exited code e) ∷ t)
        h =
      ground arith
  IsBlank-IsReady cmd source fs_type [] h = elim h [ ]
  IsBlank-IsReady cmd source fs_type (looked cmd' present ∷ []) h = absurd h.1
  IsBlank-IsReady cmd source fs_type (looked cmd' present ∷ looked _ _ ∷ t) h = absurd h.1
  IsBlank-IsReady cmd source fs_type (looked cmd' present ∷ ran _ _ _ ∷ t) h = absurd h.1
  IsBlank-IsReady cmd source fs_type (looked cmd' present ∷ checked _ _ succeeded ∷ t) h =
      absurd h.1
  IsBlank-IsReady cmd source fs_type (looked cmd' present ∷ checked _ _ (failed _) ∷ t) h =
      absurd h.1
  IsBlank-IsReady cmd source fs_type (looked cmd' missing ∷ t) h = elim h [ ]
  IsBlank-IsReady cmd source fs_type (looked cmd' (unreadable _) ∷ t) h = elim h [ ]
  IsBlank-IsReady cmd source fs_type (ran _ _ _ ∷ t) h = elim h [ ]
  IsBlank-IsReady cmd source fs_type (checked _ _ _ ∷ t) h = elim h [ ]

  pub execute-Ensures :
      (message cmd source fs_type : String)
      → Ensures
          (λ t. Safe t × IsReady cmd source t.events)
          (execute (traced host) message cmd (mkfs_args (traced host) source fs_type))
          (λ _. Safe)
          Safe
  unfolding execute ask ◌>>=◌
  execute-Ensures message cmd source fs_type = record {
    at = λ t h. ground (arith, IsBlank-IsReady cmd source fs_type t.events h.1);
  }

  pub format-Ensures :
      (source fs_type : String)
      → Ensures
          (λ t. Safe t × IsUnformatted source t.events)
          (Commands.format (traced host) source fs_type)
          (λ _. Safe)
          Safe
  unfolding Commands.format
  format-Ensures source fs_type =
      Ensures-bind _ (require_mkfs-Ensures ("mkfs." <> fs_type) source) λ _.
        Ensures-bind _ (require_text-Ensures _ fs_type _) λ _.
          Ensures-bind _ (require_text-Ensures _ source _)
            λ _. execute-Ensures _ ("mkfs." <> fs_type) source fs_type
