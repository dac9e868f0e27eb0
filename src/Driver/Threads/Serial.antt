-- ===== src/Driver/Threads/Serial.antt =====
-- The steps of the goroutines of internal/driver against whole methods of the client.
use mathlib.Core.Path.{subst}
use vcd_csi.Prelude.{
  ℕ, List, [], ◌∷◌, ◌++◌, ◌≡◌, ◌≢◌, refl, sym, ap, ◌∙◌, inl, inr, Bool-cases, Bool, true, false,
  arith, eqb, if◌then◌else◌,
}
use vcd_csi.Go.Exec.{Outcome, Exec}
use vcd_csi.Vcd.State.{VcdClient, with_mutex}
use vcd_csi.Vcd.Steps.{Code, done, step, run_code, Along}
use vcd_csi.Driver.Threads.Sim.{Calm, Ready, settled, settled-become, Sim, free, held}
use vcd_csi.Driver.Threads.Update.{picked, updated, update_other, update_twice, update_comm, apart}
use vcd_csi.Driver.Threads.{
  Prog, stop, atom, call, Thread, out, inside, System, update, on_rest, taken, become, with_vcl,
  turn_at, turn, whole_turn_at, whole_turn, interleave, whole_interleave, Rest,
}

module _ {W M A : Type 0} {R : VcdClient W → VcdClient W → Type 0}
    (keeps_lock : (v v' : VcdClient W) → R v v' → v.locked ≡ true → v'.locked ≡ true) where
  -- Whole methods that the second system takes while the first takes its step.
  abbrev Matches : System W M A → System W M A → Type 1
  Matches c a = (schedule : List ℕ) × Sim R c (whole_interleave schedule a)

  Ready-become :
      (i : ℕ) (p : Prog W M A) (threads : ℕ → Thread W M A)
      → Calm R p
      → (j : ℕ) → (j ≢ i → Ready R (threads j))
      → Ready R (update i (out p) threads j)
  unfolding Ready
  Ready-become i p threads h j r =
      picked (Ready R) (eqb j i) (out p) (threads j) h (λ e. r (λ x. ground (arith, x, e)))

  Ready-aside :
      (i : ℕ) (t : Thread W M A) (threads : ℕ → Thread W M A)
      → ((j : ℕ) → j ≢ i → Ready R (threads j))
      → (j : ℕ) → j ≢ i
      → Ready R (update i t threads j)
  Ready-aside i t threads r j n = subst (Ready R) (sym (update_other i j t threads n)) (r j n)

  stays : {c a : System W M A} → Sim R c a → Matches c a
  unfolding whole_interleave
  stays h = ([], h)

  follows :
      {c : System W M A} (a : System W M A) (i : ℕ) (t : Thread W M A)
      → a.threads i ≡ t
      → Sim R c (whole_turn_at i t a)
      → Matches c a
  unfolding whole_interleave whole_turn
  follows {c} a i t e h = (i ∷ [], subst (λ u. Sim R c (whole_turn_at i u a)) (sym e) h)

  entered :
      {B : Type 0} (c : System W M A) (i : ℕ) (q : Code (VcdClient W) B)
      (k : Outcome B → Prog W M A)
      → c.state.vcl.locked ≡ false
      → settled i q k (become i (inside q k) (with_vcl (taken c.state.vcl) c))
        ≡ whole_turn_at i (out (call q k)) c
  unfolding whole_turn_at with_mutex
  entered c i q k h = rw (h, update_twice i) refl

  begin_call :
      {B : Type 0} (c : System W M A) (i : ℕ) (q : Code (VcdClient W) B)
      (k : Outcome B → Prog W M A) (b : Bool)
      → c.state.vcl.locked ≡ b
      → c.threads i ≡ out (call q k)
      → Calm R (call q k)
      → ((j : ℕ) → Ready R (c.threads j))
      → Matches (if b then c else become i (inside q k) (with_vcl (taken c.state.vcl) c)) c
  unfolding Calm
  begin_call c i q k true h e r ready = stays (free ready)
  begin_call c i q k false h e r ready = follows c i _ e (
      subst (Sim R _) (entered c i q k h) (
        held i q k (updated i _ c.threads) r.0 r.1 (Ready-aside i _ c.threads (λ j n. ready j))
          refl))

  free_turn :
      (c : System W M A) (i : ℕ) (t : Thread W M A)
      → c.threads i ≡ t
      → Ready R t
      → ((j : ℕ) → Ready R (c.threads j))
      → Matches (turn_at i t c) c
  unfolding turn_at whole_turn_at Ready Calm
  free_turn c i (out (stop o)) e r ready = stays (free ready)
  free_turn c i (out (atom m k)) e r ready =
      follows c i _ e (free (λ j. Ready-become i (k _) c.threads (r _) j (λ n. ready j)))
  free_turn c i (out (call q k)) e r ready = begin_call c i q k _ refl e r ready
  free_turn c i (inside q k) e r ready = absurd r

  rested :
      {B D : Type 0} (c : System W M A) (i j : ℕ) (q : Code (VcdClient W) B)
      (k : Outcome B → Prog W M A) (m : Exec (Rest M) D) (p : Outcome D → Prog W M A)
      → j ≢ i
      → settled i q k (turn_at j (out (atom m p)) c)
        ≡ whole_turn_at j (out (atom m p)) (settled i q k c)
  unfolding turn_at whole_turn_at on_rest
  rested c i j q k m p n = rw (update_comm i j _ _ c.threads n) refl

  held_turn :
      {B : Type 0} (c : System W M A) (i : ℕ) (q : Code (VcdClient W) B)
      (k : Outcome B → Prog W M A)
      → c.threads i ≡ inside q k
      → Along R q
      → ((o : Outcome B) → Calm R (k o))
      → ((j : ℕ) → j ≢ i → Ready R (c.threads j))
      → c.state.vcl.locked ≡ true
      → Matches (turn_at i (inside q k) c) (settled i q k c)
  unfolding turn_at Along run_code
  held_turn c i (done o) k e u h r l = stays (free (λ j. Ready-become i _ c.threads (h _) j (r j)))
  held_turn c i (step m q) k e u h r l = stays (
      subst (Sim R _)
        (settled-become c i (m c.state.vcl).1 (inside (q (m c.state.vcl).0) k) (q (m c.state.vcl).0)
          k)
        (held i (q _) k (updated i _ c.threads) (u.1 _) h (Ready-aside i _ c.threads r)
          (keeps_lock _ _ (u.0 c.state.vcl) l)))

  waits :
      {B : Type 0} (c : System W M A) (j : ℕ) (q : Code (VcdClient W) B)
      (k : Outcome B → Prog W M A)
      → c.state.vcl.locked ≡ true
      → turn_at j (out (call q k)) c ≡ c
  unfolding turn_at
  waits c j q k l =
      ap (λ b. if b then c else become j (inside q k) (with_vcl (taken c.state.vcl) c)) l

  other_turn :
      {B : Type 0} (c : System W M A) (i j : ℕ) (q : Code (VcdClient W) B)
      (k : Outcome B → Prog W M A) (t : Thread W M A)
      → j ≢ i
      → c.threads j ≡ t
      → Ready R t
      → c.threads i ≡ inside q k
      → Along R q
      → ((o : Outcome B) → Calm R (k o))
      → ((j : ℕ) → j ≢ i → Ready R (c.threads j))
      → c.state.vcl.locked ≡ true
      → Matches (turn_at j t c) (settled i q k c)
  unfolding turn_at Ready Calm on_rest
  other_turn c i j q k (out (stop o)) n x ready e u h r l = stays (held i q k e u h r l)
  other_turn c i j q k (out (call q' k')) n x ready e u h r l =
      subst (λ c'. Matches c' (settled i q k c)) (sym (waits c j q' k' l))
        (stays (held i q k e u h r l))
  other_turn c i j q k (out (atom m p)) n x ready e u h r l =
      follows (settled i q k c) j (out (atom m p)) (update_other i j _ c.threads n ∙ x) (
        subst (Sim R _) (rested c i j q k m p n) (
          held {c = turn_at j (out (atom m p)) c} i q k
            (update_other j i _ c.threads (λ y. n (sym y)) ∙ e) u h
            (λ a y. Ready-become j (p _) c.threads (ready _) a (λ z. r a y)) l))
  other_turn c i j q k (inside q' k') n x ready e u h r l = absurd ready

  turn_other :
      (i j : ℕ) (c : System W M A) (t : Thread W M A)
      → i ≡ j
      → c.threads j ≡ t
      → turn i c ≡ turn_at j t c
  unfolding turn
  turn_other i j c t e x = rw (e, x) refl

  -- A step of one goroutine is none, or one, of the steps with whole methods.
  turn-Sim : {c a : System W M A} (i : ℕ) → Sim R c a → Matches (turn i c) a
  unfolding turn
  turn-Sim {c} i (free ready) = free_turn c i (c.threads i) refl (ready i) ready
  turn-Sim {c} i (held j q k e u h r l) = elim (Bool-cases (eqb i j)) [
    | inl y ↦
        subst (λ c'. Matches c' (settled j q k c)) (sym (turn_other i j c _ (ground (arith, y)) e))
          (held_turn c j q k e u h r l)
    | inr n ↦ other_turn c j i q k (c.threads i) (apart i j n) refl (r i (apart i j n)) e u h r l
  ]

  whole_interleave-append :
      (s s' : List ℕ) (a : System W M A)
      → whole_interleave (s ++ s') a ≡ whole_interleave s' (whole_interleave s a)
  unfolding whole_interleave
  whole_interleave-append [] s' a = refl
  whole_interleave-append (i ∷ s) s' a = whole_interleave-append s s' (whole_turn i a)

  pub interleave-Sim :
      (schedule : List ℕ) {c a : System W M A} → Sim R c a → Matches (interleave schedule c) a
  unfolding interleave whole_interleave
  interleave-Sim [] h = stays h
  interleave-Sim (i ∷ schedule) {c} h =
      let first = turn-Sim i h in
      let rest = interleave-Sim schedule first.1 in
      (first.0 ++ rest.0, subst (Sim R _) (sym (whole_interleave-append first.0 rest.0 _)) rest.1)
