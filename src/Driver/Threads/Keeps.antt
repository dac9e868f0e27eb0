-- ===== src/Driver/Threads/Keeps.antt =====
-- What the methods of the client keep one after the other, the goroutines of internal/driver keep when
-- they interleave.
use vcd_csi.Prelude.{ℕ, List, [], ◌∷◌, Bool, true, false, eqb, if◌then◌else◌}
use vcd_csi.Go.Exec.{Outcome}
use vcd_csi.Vcd.State.{VcdClient, unlock}
use vcd_csi.Vcd.Steps.{Code, done, step, run_code, Along}
use vcd_csi.Driver.Threads.{
  Prog, stop, atom, call, Thread, out, inside, System, update, on_rest, whole_turn_at, whole_turn,
  whole_interleave,
}
use vcd_csi.Driver.Threads.Update.{picked}
use vcd_csi.Driver.Threads.Sim.{Sim, free, held}
use vcd_csi.Driver.Threads.Impl.{Safe}

unfoldable pub IsSafe : {W M A : Type 0} → (VcdClient W → Type 0) → Thread W M A → Type 0
IsSafe P (out p) = Safe P p
IsSafe P (inside q k) = ⊥

-- The client is well, and each goroutine calls only what keeps it so.
pub record Sound {W M A : Type 0} (P : VcdClient W → Type 0) (c : System W M A) : Type 0 where
  pub well : P c.state.vcl
  pub safe : (i : ℕ) → IsSafe P (c.threads i)

module _ {W M A : Type 0} (P : VcdClient W → Type 0) where
  IsSafe-become :
      (i : ℕ) (p : Prog W M A) (threads : ℕ → Thread W M A)
      → Safe P p
      → ((j : ℕ) → IsSafe P (threads j))
      → (j : ℕ) → IsSafe P (update i (out p) threads j)
  unfolding IsSafe
  IsSafe-become i p threads h r j = picked (IsSafe P) (eqb j i) (out p) (threads j) h (λ e. r j)

module _ {W M A : Type 0} {P : VcdClient W → Type 0} where
  if-Sound :
      (b : Bool) (c c' : System W M A) → Sound P c → Sound P c' → Sound P (if b then c else c')
  if-Sound true c c' h h' = h
  if-Sound false c c' h h' = h'

  whole_turn_at-Sound :
      (i : ℕ) (t : Thread W M A) (c : System W M A)
      → IsSafe P t
      → Sound P c
      → Sound P (whole_turn_at i t c)
  unfolding whole_turn_at IsSafe Safe on_rest
  whole_turn_at-Sound i (out (stop o)) c r h = h
  whole_turn_at-Sound i (out (atom m k)) c r h = record {
    well = h.well;
    safe = IsSafe-become P i (k _) c.threads (r _) h.safe;
  }
  whole_turn_at-Sound i (out (call q k)) c r h = if-Sound c.state.vcl.locked _ _ h (record {
    well = r.0.keeps _ h.well;
    safe = IsSafe-become P i (k _) c.threads (r.1 _) h.safe;
  })
  whole_turn_at-Sound i (inside q k) c r h = absurd r

  pub whole_interleave-Sound :
      (schedule : List ℕ) (c : System W M A) → Sound P c → Sound P (whole_interleave schedule c)
  unfolding whole_interleave whole_turn
  whole_interleave-Sound [] c h = h
  whole_interleave-Sound (i ∷ schedule) c h =
      whole_interleave-Sound schedule _ (whole_turn_at-Sound i (c.threads i) c (h.safe i) h)

module _ {W : Type 0} {R : VcdClient W → VcdClient W → Type 0} {B : VcdClient W → Type 0}
    (back : (v v' : VcdClient W) → R v v' → B v' → B v) where
  -- What a body has at its end it has had all along, if each step goes back to it.
  before :
      {A : Type 0} (q : Code (VcdClient W) A) (v : VcdClient W)
      → Along R q
      → B (run_code q v).1
      → B v
  unfolding Along run_code
  before (done o) v h b = b
  before (step m k) v h b = back v _ (h.0 v) (before (k _) _ (h.1 _) b)

module _ {W M A : Type 0} {R : VcdClient W → VcdClient W → Type 0} where
  pub Sim-before :
      {P : VcdClient W → Type 0} {B : VcdClient W → Type 0} {c a : System W M A}
      → ((v v' : VcdClient W) → R v v' → B v' → B v)
      → ((D : Type 0) (o : Outcome D) (v : VcdClient W) → B (unlock (o, v)).1 → B v)
      → ((v : VcdClient W) → P v → B v)
      → Sim R c a
      → P a.state.vcl
      → B c.state.vcl
  Sim-before back unlocks h (free ready) p = h _ p
  Sim-before back unlocks h (held i q k e u n r l) p = before back q _ u (unlocks _ _ _ (h _ p))
