-- ===== src/Driver/Threads/Finish.antt =====
-- A goroutine of internal/driver that runs by itself gets to its end.
use mathlib.Core.Path.{subst}
use vcd_csi.Prelude.{ℕ, List, [], ◌∷◌, ◌++◌, ◌≡◌, refl, sym, ap, ◌∙◌, false, if◌then◌else◌}
use vcd_csi.Go.Exec.{Outcome, zoom}
use vcd_csi.Vcd.State.{VcdClient, with_mutex}
use vcd_csi.Vcd.Steps.{Code, done, step, run_code}
use vcd_csi.Driver.State.{State, on_vcl}
use vcd_csi.Driver.Threads.{
  Prog, stop, atom, call, Thread, out, inside, System, on_rest, taken, run_prog, become, with_vcl,
  turn_at, turn, interleave,
}
use vcd_csi.Driver.Threads.Update.{updated, update_twice, update_same}
use vcd_csi.Driver.Threads.Sim.{settled, settled-become, Sim, free, held}
use vcd_csi.Driver.Threads.Impl.{Safe}

abbrev pub Only : ℕ → List ℕ → Type 0
Only i [] = Unit
Only i (j ∷ schedule) = (j ≡ i) × Only i schedule

Only-append : (i : ℕ) (s s' : List ℕ) → Only i s → Only i s' → Only i (s ++ s')
Only-append i [] s' h h' = h'
Only-append i (j ∷ s) s' h h' = (h.0, Only-append i s s' h.1 h')

module _ {W M A : Type 0} where
  pub interleave-append :
      (s s' : List ℕ) (c : System W M A) → interleave (s ++ s') c ≡ interleave s' (interleave s c)
  unfolding interleave
  interleave-append [] s' c = refl
  interleave-append (i ∷ s) s' c = interleave-append s s' (turn i c)

  -- Steps of the goroutine `i` alone lead from one system to another.
  abbrev pub Leads : ℕ → System W M A → System W M A → Type 1
  Leads i c d = (schedule : List ℕ) × Only i schedule × (interleave schedule c ≡ d)

  go_turn :
      (i : ℕ) (c d : System W M A) (t : Thread W M A)
      → c.threads i ≡ t
      → Leads i (turn_at i t c) d
      → Leads i c d
  unfolding interleave turn
  go_turn i c d t e l =
      (i ∷ l.0, (refl, l.1), subst (λ u. interleave l.0 (turn_at i u c) ≡ d) (sym e) l.2)

  body_ends :
      {B : Type 0} (i : ℕ) (q : Code (VcdClient W) B) (k : Outcome B → Prog W M A)
      (c : System W M A)
      → c.threads i ≡ inside q k
      → Leads i c (settled i q k c)
  unfolding turn_at interleave run_code
  body_ends i (done o) k c e = go_turn i c _ _ e ([], tt, refl)
  body_ends i (step m q) k c e =
      let (o, v) = m c.state.vcl in
      let later =
        body_ends i (q o) k (become i (inside (q o) k) (with_vcl v c)) (updated i _ c.threads) in
      go_turn i c _ _ e (later.0, later.1, later.2 ∙ settled-become c i v (inside (q o) k) (q o) k)

  -- The goroutine that is inside, if there is one, gets out.
  pub Sim-Leads :
      {R : VcdClient W → VcdClient W → Type 0} {c a : System W M A}
      → Sim R c a
      → (i : ℕ) × Leads i c a
  unfolding interleave
  Sim-Leads (free ready) = (0, ([], tt, refl))
  Sim-Leads (held i q k e u h r l) = (i, body_ends i q k _ e)

  -- The goroutine `i` at the end of its program.
  abbrev pub ended : ℕ → Prog W M A → System W M A → System W M A
  ended i p c = let (o, s) = run_prog p c.state in become i (out (stop o)) (record c { state = s })

  ended-become :
      (i : ℕ) (p : Prog W M A) (t : Thread W M A) (s : State (VcdClient W) M) (c : System W M A)
      → ended i p (become i t (record c { state = s })) ≡ ended i p (record c { state = s })
  ended-become i p t s c = rw (update_twice i (out (stop (run_prog p s).0)) t c.threads) refl

  Leads-trans : (i : ℕ) (c d e : System W M A) → Leads i c d → Leads i d e → Leads i c e
  Leads-trans i c d e l k = (
    l.0 ++ k.0,
    Only-append i l.0 k.0 l.1 k.1,
    interleave-append l.0 k.0 c ∙ (ap (interleave k.0) l.2 ∙ k.2),
  )

  -- The goroutine and the state that a call of the client leaves.
  abbrev called :
      {B : Type 0}
      → ℕ
      → Code (VcdClient W) B
      → (Outcome B → Prog W M A)
      → System W M A
      → System W M A
  called i q k c =
      let (o, s) = on_vcl (with_mutex (run_code q)) c.state in
      become i (out (k o)) (record c { state = s })

  called_lem :
      {B : Type 0} (i : ℕ) (q : Code (VcdClient W) B) (k : Outcome B → Prog W M A)
      (c : System W M A)
      → c.state.vcl.locked ≡ false
      → settled i q k (become i (inside q k) (with_vcl (taken c.state.vcl) c)) ≡ called i q k c
  unfolding on_vcl zoom with_mutex
  called_lem i q k c f = rw (f, update_twice i) refl

  enters :
      {B : Type 0} (i : ℕ) (q : Code (VcdClient W) B) (k : Outcome B → Prog W M A)
      (c : System W M A)
      → c.state.vcl.locked ≡ false
      → c.threads i ≡ out (call q k)
      → Leads i c (called i q k c)
  unfolding turn_at
  enters i q k c f e =
      let inner = become i (inside q k) (with_vcl (taken c.state.vcl) c) in
      let l = body_ends i q k inner (updated i _ c.threads) in
      go_turn i c _ _ e (
        subst (λ b. Leads i (if b then c else inner) (called i q k c)) (sym f)
          (l.0, l.1, l.2 ∙ called_lem i q k c f))

-- The goroutine `i` is done, with this answer, and the state is this one.
abbrev pub Finished :
    {W M A : Type 0} → ℕ → Outcome A × State (VcdClient W) M → System W M A → Type 1
Finished i r c = (c.threads i ≡ out (stop r.0)) × (c.state ≡ r.1)

pub ended-Finished :
    {W M A : Type 0} (i : ℕ) (p : Prog W M A) (c : System W M A)
    (r : Outcome A × State (VcdClient W) M)
    → run_prog p c.state ≡ r
    → Finished i r (ended i p c)
ended-Finished i p c r e = (updated i _ c.threads ∙ ap (λ r'. out (stop r'.0)) e, ap (λ r'. r'.1) e)

module _ {W M A : Type 0} {P : VcdClient W → Type 0}
    (idle : (v : VcdClient W) → P v → v.locked ≡ false) where
  -- From a client that keeps `P` and is not locked, to where the program leads if it runs alone.
  pub finish :
      (i : ℕ) (p : Prog W M A) (c : System W M A)
      → c.threads i ≡ out p
      → Safe P p
      → P c.state.vcl
      → Leads i c (ended i p c)
  unfolding run_prog Safe interleave turn_at on_rest on_vcl zoom
  finish i (stop o) c e h w =
      ([], tt, ap (λ f. record c { threads = f }) (sym (update_same i _ c.threads e)))
  finish i (atom m k) c e h w =
      let (o, s) = on_rest m c.state in
      let later =
        finish i (k o) (become i (out (k o)) (record c { state = s })) (updated i _ c.threads) (h o)
          w in
      go_turn i c _ _ e (later.0, later.1, later.2 ∙ ended-become i (k o) (out (k o)) s c)
  finish i (call q k) c e h w =
      let (o, s) = on_vcl (with_mutex (run_code q)) c.state in
      let later =
        finish i (k o) (become i (out (k o)) (record c { state = s })) (updated i _ c.threads)
          (h.1 o) (h.0.keeps _ w) in
      Leads-trans i _ _ _ (enters i q k c (idle _ w) e)
        (later.0, later.1, later.2 ∙ ended-become i (k o) (out (k o)) s c)

  pub run_prog-keeps :
      (p : Prog W M A) (s : State (VcdClient W) M) → Safe P p → P s.vcl → P (run_prog p s).1.vcl
  unfolding run_prog Safe on_rest on_vcl zoom
  run_prog-keeps (stop o) s h w = w
  run_prog-keeps (atom m k) s h w = run_prog-keeps (k _) _ (h _) w
  run_prog-keeps (call q k) s h w = run_prog-keeps (k _) _ (h.1 _) (h.0.keeps _ w)
