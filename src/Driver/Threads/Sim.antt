-- ===== src/Driver/Threads/Sim.antt =====
-- One goroutine at most is inside a method of the client, and what the system is once that method is at
-- its end.
use vcd_csi.Prelude.{ℕ, ◌≡◌, ◌≢◌, refl, true}
use vcd_csi.Go.Exec.{Outcome}
use vcd_csi.Vcd.State.{VcdClient, unlock}
use vcd_csi.Vcd.Steps.{Code, run_code, Along}
use vcd_csi.Driver.Threads.Update.{update_twice}
use vcd_csi.Driver.Threads.{Prog, stop, atom, call, Thread, out, inside, System, become, with_vcl}

-- Every call of the client goes from step to step by `R`.
unfoldable pub Calm : {W M A : Type 0} → (VcdClient W → VcdClient W → Type 0) → Prog W M A → Type 0
Calm R (stop o) = Unit
Calm R (atom {B} m k) = (o : Outcome B) → Calm R (k o)
Calm R (call {B} q k) = Along R q × ((o : Outcome B) → Calm R (k o))

-- A goroutine that is not inside.
unfoldable pub Ready :
    {W M A : Type 0} → (VcdClient W → VcdClient W → Type 0) → Thread W M A → Type 0
Ready R (out p) = Calm R p
Ready R (inside q k) = ⊥

module _ {W M A : Type 0} where
  -- The goroutine `i` done at once with the rest of its method of the client.
  abbrev pub settled :
      {B : Type 0}
      → ℕ
      → Code (VcdClient W) B
      → (Outcome B → Prog W M A)
      → System W M A
      → System W M A
  settled i q k c =
      let (o, v) = unlock (run_code q c.state.vcl) in become i (out (k o)) (with_vcl v c)

  pub settled-become :
      {B : Type 0} (c : System W M A) (i : ℕ) (v : VcdClient W) (t : Thread W M A)
      (q : Code (VcdClient W) B) (k : Outcome B → Prog W M A)
      → settled i q k (become i t (with_vcl v c)) ≡ settled i q k (with_vcl v c)
  settled-become c i v t q k =
      rw (update_twice i (out (k (unlock (run_code q v)).0)) t c.threads) refl

  -- Nobody is inside a method of the client and the two systems are the same, or one goroutine is and
  -- the second system is the first with that method at its end.
  pub data Sim (R : VcdClient W → VcdClient W → Type 0) : System W M A → System W M A → Type 1 where
    free : {c : System W M A} → ((j : ℕ) → Ready R (c.threads j)) → Sim R c c
    held :
        {c : System W M A} {B : Type 0} (i : ℕ) (q : Code (VcdClient W) B)
        (k : Outcome B → Prog W M A)
        → c.threads i ≡ inside q k
        → Along R q
        → ((o : Outcome B) → Calm R (k o))
        → ((j : ℕ) → j ≢ i → Ready R (c.threads j))
        → c.state.vcl.locked ≡ true
        → Sim R c (settled i q k c)
