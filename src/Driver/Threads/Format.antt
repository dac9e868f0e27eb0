-- ===== src/Driver/Threads/Format.antt =====
-- The test and the making of a file system in `NodeStageVolume` of internal/driver/node.go, on two
-- goroutines at once.
use vcd_csi.Prelude.{String, [], ◌∷◌, ◌≡◌, refl, Bool, true, false, arith}
use vcd_csi.Go.Exec.{ok, err, Outcome, returned, panicked, blocked, Exec, ◌>>=◌, zoom}
use vcd_csi.Vcd.State.{VcdClient}
use vcd_csi.Driver.State.{Mounter, State, on_host}
use vcd_csi.Driver.Node.{format_once, with_status, internal_error}
use vcd_csi.Driver.Node.Order.{formatted, format_checked, Traced, traced}
use vcd_csi.Driver.Threads.Sim.{Calm}
use vcd_csi.Driver.Threads.Impl.{Impl, Safe}
use vcd_csi.Driver.Threads.{
  Rest, Prog, stop, atom, out, on_rest, run_prog, turn_at, turn, interleave,
}

-- A call of the host, next to the lock.
abbrev pub rest_host : {M B : Type 0} → Exec M B → Exec (Rest M) B
rest_host call r = let (o, host) = call r.host in (o, record r { host = host })

abbrev made : Outcome (Unit {0}) → Outcome (Unit {0})
made (returned (ok u)) = returned (ok tt)
made (returned (err e)) = returned (err (internal_error e))
made panicked = panicked
made blocked = blocked

module _ {W M : Type 0} (m : Mounter M) where
  abbrev make : String → String → Outcome Bool → Prog W M (Unit {0})
  make source fs_type (returned (ok true)) = stop (returned (ok tt))
  make source fs_type (returned (ok false)) =
      atom (rest_host (m.format source fs_type)) (λ o. stop (made o))
  make source fs_type (returned (err e)) = stop (returned (err e))
  make source fs_type panicked = stop panicked
  make source fs_type blocked = stop blocked

  -- The test, and then the command that makes the file system.
  unfoldable pub format_prog : String → String → Prog W M (Unit {0})
  format_prog source fs_type = atom (rest_host (m.is_formatted source)) (make source fs_type)

  pub format_prog-format_once :
      (source fs_type : String) (s : State (VcdClient W) M)
      → run_prog (format_prog source fs_type) s ≡ format_once m source fs_type s
  unfolding format_prog run_prog on_rest format_once with_status on_host zoom ◌>>=◌
  format_prog-format_once source fs_type s = ground arith

module _ {W M : Type 0} (R : VcdClient W → VcdClient W → Type 0) (P : VcdClient W → Type 0)
    (m : Mounter M) (source fs_type : String) where
  make-Calm :
      (o : Outcome Bool) → Calm R (make m source fs_type o) × Safe P (make m source fs_type o)
  unfolding Calm Safe
  make-Calm (returned (ok true)) = (tt, tt)
  make-Calm (returned (ok false)) = (λ o. tt, λ o. tt)
  make-Calm (returned (err e)) = (tt, tt)
  make-Calm panicked = (tt, tt)
  make-Calm blocked = (tt, tt)

module _ {W M : Type 0} {R : VcdClient W → VcdClient W → Type 0} {P : VcdClient W → Type 0}
    (m : Mounter M) (source fs_type : String) where
  -- The goroutines that stage a volume run this program.
  pub format_once-Impl : Impl R P (format_once m source fs_type)
  unfolding Calm Safe format_prog
  format_once-Impl = record {
    prog = format_prog m source fs_type;
    same = format_prog-format_once m source fs_type;
    calm = λ o. (make-Calm R P m source fs_type o).0;
    safe = λ o. (make-Calm R P m source fs_type o).1;
  }

module _ {W M : Type 0} (m : Mounter M) where
  -- If the host answers twice in a row that a device has no file system, then two goroutines that
  -- come to the test of staging for this device can both make a file system on it, one right after
  -- the other, since nothing is held between the test and the command.
  pub interleave-format_prog :
      (source fs_type : String) (s : State (VcdClient W) (Traced M)) (h1 h2 : M)
      → m.is_formatted source s.host.inner ≡ (returned (ok false), h1)
      → m.is_formatted source h1 ≡ (returned (ok false), h2)
      → (interleave (0 ∷ 1 ∷ 0 ∷ 1 ∷ []) (record {
        state = s;
        threads = λ i. out (format_prog (traced m) source fs_type);
      })).state.host.events
        ≡ formatted source fs_type
          ∷ formatted source fs_type
          ∷ format_checked source (returned (ok false))
          ∷ format_checked source (returned (ok false))
          ∷ s.host.events
  unfolding format_prog on_rest zoom turn turn_at interleave
  interleave-format_prog source fs_type s h1 h2 e0 e1 = rw (e0, e1) refl
