-- ===== src/Driver/Threads/Impl.antt =====
-- The methods of internal/driver as programs that a goroutine runs: one rule for each way to build a
-- call.
use vcd_csi.Prelude.{◌≡◌, refl, sym, ap, ◌∙◌, Bool, true, false, Option, none, some, if◌then◌else◌}
use mathlib.Core.Path.{subst}
use vcd_csi.Go.Error.{Error}
use vcd_csi.Go.Exec.{
  Result, ok, err, Outcome, returned, panicked, blocked, Exec, pure, raise, panic, deref, attempt,
  attempt_outcome, continue, ◌>>=◌, ◌>>◌,
}
use vcd_csi.Go.Exec.Runs.{Runs}
use vcd_csi.Vcd.State.{VcdClient, with_mutex}
use vcd_csi.Vcd.Steps.{Method, run_code}
use vcd_csi.Driver.State.{State, on_vcl}
use vcd_csi.Driver.Threads.{Rest, Prog, stop, atom, call, on_rest, run_prog}
use vcd_csi.Driver.Threads.Sim.{Calm}

-- Every method of the client that is called keeps `P` and ends.
unfoldable pub Safe : {W M A : Type 0} → (VcdClient W → Type 0) → Prog W M A → Type 0
Safe P (stop o) = Unit
Safe P (atom {B} m k) = (o : Outcome B) → Safe P (k o)
Safe P (call {B} q k) = Runs P (with_mutex (run_code q)) × ((o : Outcome B) → Safe P (k o))

unfoldable then_prog : {W M A B : Type 0} → Prog W M A → (Outcome A → Prog W M B) → Prog W M B
then_prog (stop o) next = next o
then_prog (atom m k) next = atom m (λ o. then_prog (k o) next)
then_prog (call q k) next = call q (λ o. then_prog (k o) next)

abbrev go_on : {W M A B : Type 0} → (A → Prog W M B) → Outcome A → Prog W M B
go_on next (returned (ok a)) = next a
go_on next (returned (err e)) = stop (returned (err e))
go_on next panicked = stop panicked
go_on next blocked = stop blocked

run_prog-then_prog :
    {W M A B : Type 0} (p : Prog W M A) (next : Outcome A → Prog W M B) (s : State (VcdClient W) M)
    → run_prog (then_prog p next) s ≡ run_prog (next (run_prog p s).0) (run_prog p s).1
unfolding then_prog run_prog
run_prog-then_prog (stop o) next s = refl
run_prog-then_prog (atom m k) next s = run_prog-then_prog (k _) next _
run_prog-then_prog (call q k) next s = run_prog-then_prog (k _) next _

module _ {W M : Type 0} (R : VcdClient W → VcdClient W → Type 0) (P : VcdClient W → Type 0) where
  then_prog-Calm :
      {A B : Type 0} (p : Prog W M A) (next : Outcome A → Prog W M B)
      → Calm R p
      → ((o : Outcome A) → Calm R (next o))
      → Calm R (then_prog p next)
  unfolding then_prog Calm
  then_prog-Calm (stop o) next h n = n o
  then_prog-Calm (atom m k) next h n = λ o. then_prog-Calm (k o) next (h o) n
  then_prog-Calm (call q k) next h n = (h.0, λ o. then_prog-Calm (k o) next (h.1 o) n)

  then_prog-Safe :
      {A B : Type 0} (p : Prog W M A) (next : Outcome A → Prog W M B)
      → Safe P p
      → ((o : Outcome A) → Safe P (next o))
      → Safe P (then_prog p next)
  unfolding then_prog Safe
  then_prog-Safe (stop o) next h n = n o
  then_prog-Safe (atom m k) next h n = λ o. then_prog-Safe (k o) next (h o) n
  then_prog-Safe (call q k) next h n = (h.0, λ o. then_prog-Safe (k o) next (h.1 o) n)

  -- The call `m` as a program, which does what `m` does if it runs alone.
  pub record Impl {A : Type 0} (m : Exec (State (VcdClient W) M) A) : Type 1 where
    pub prog : Prog W M A
    pub same : (s : State (VcdClient W) M) → run_prog prog s ≡ m s
    pub calm : Calm R prog
    pub safe : Safe P prog

module _ {W M : Type 0} {R : VcdClient W → VcdClient W → Type 0} {P : VcdClient W → Type 0} where
  module _ {A : Type 0} where
    pub Impl-pure : (a : A) → Impl {M = M} R P (pure a)
    unfolding run_prog Calm Safe ◌>>=◌
    Impl-pure a = record { prog = stop (returned (ok a)); same = λ s. refl; calm = tt; safe = tt }

    pub Impl-raise : (e : Error) → Impl {M = M} R P (raise {A = A} e)
    unfolding run_prog Calm Safe ◌>>=◌
    Impl-raise e = record { prog = stop (returned (err e)); same = λ s. refl; calm = tt; safe = tt }

    pub Impl-panic : Impl {M = M} R P (panic {A = A})
    unfolding run_prog Calm Safe ◌>>=◌
    Impl-panic = record { prog = stop panicked; same = λ s. refl; calm = tt; safe = tt }

    pub Impl-deref : (o : Option A) → Impl {M = M} R P (deref o)
    unfolding run_prog Calm Safe ◌>>=◌
    Impl-deref none = record { prog = stop panicked; same = λ s. refl; calm = tt; safe = tt }
    Impl-deref (some a) = record {
      prog = stop (returned (ok a));
      same = λ s. refl;
      calm = tt;
      safe = tt;
    }

    pub Impl-if :
        (b : Bool) (m n : Exec (State (VcdClient W) M) A)
        → (b ≡ true → Impl R P m)
        → (b ≡ false → Impl R P n)
        → Impl R P (if b then m else n)
    Impl-if true m n hm hn = hm refl
    Impl-if false m n hm hn = hn refl

    -- One use of the lock or of the host.
    pub Impl-atom :
        (m : Exec (State (VcdClient W) M) A) (r : Exec (Rest M) A)
        → ((s : State (VcdClient W) M) → on_rest r s ≡ m s)
        → Impl R P m
    unfolding run_prog Calm Safe
    Impl-atom m r h = record { prog = atom r stop; same = h; calm = λ o. tt; safe = λ o. tt }

    -- A call of a method of the client.
    pub Impl-call : (m : Exec (VcdClient W) A) → Method R m → Runs P m → Impl {M = M} R P (on_vcl m)
    unfolding run_prog Calm Safe
    Impl-call m h r = record {
      prog = call h.body stop;
      same = λ s. ap (λ f. on_vcl f s) h.same;
      calm = (h.along, λ o. tt);
      safe = (subst (Runs P) (sym h.same) r, λ o. tt);
    }

    pub Impl-attempt : (m : Exec (State (VcdClient W) M) A) → Impl R P m → Impl R P (attempt m)
    unfolding run_prog Calm Safe ◌>>=◌
    Impl-attempt m h = record {
      prog = then_prog h.prog (λ o. stop (attempt_outcome o));
      same = λ s. run_prog-then_prog h.prog _ s ∙ ap (λ r. (attempt_outcome r.0, r.1)) (h.same s);
      calm = then_prog-Calm R P h.prog _ h.calm (λ o. tt);
      safe = then_prog-Safe R P h.prog _ h.safe (λ o. tt);
    }

  module _ {A B : Type 0} where
    run-go_on :
        (o : Outcome A) (f : A → Exec (State (VcdClient W) M) B) (h : (a : A) → Impl R P (f a))
        (s : State (VcdClient W) M)
        → run_prog (go_on (λ a. (h a).prog) o) s ≡ continue o f s
    unfolding run_prog
    run-go_on (returned (ok a)) f h s = (h a).same s
    run-go_on (returned (err e)) f h s = refl
    run-go_on panicked f h s = refl
    run-go_on blocked f h s = refl

    go_on-Calm :
        (o : Outcome A) (f : A → Exec (State (VcdClient W) M) B) (h : (a : A) → Impl R P (f a))
        → Calm R (go_on (λ a. (h a).prog) o)
    unfolding Calm
    go_on-Calm (returned (ok a)) f h = (h a).calm
    go_on-Calm (returned (err e)) f h = tt
    go_on-Calm panicked f h = tt
    go_on-Calm blocked f h = tt

    go_on-Safe :
        (o : Outcome A) (f : A → Exec (State (VcdClient W) M) B) (h : (a : A) → Impl R P (f a))
        → Safe P (go_on (λ a. (h a).prog) o)
    unfolding Safe
    go_on-Safe (returned (ok a)) f h = (h a).safe
    go_on-Safe (returned (err e)) f h = tt
    go_on-Safe panicked f h = tt
    go_on-Safe blocked f h = tt

    pub Impl-bind :
        (m : Exec (State (VcdClient W) M) A) (f : A → Exec (State (VcdClient W) M) B)
        → Impl R P m
        → ((a : A) → Impl R P (f a))
        → Impl R P (m >>= f)
    unfolding ◌>>=◌
    Impl-bind m f hm hf = record {
      prog = then_prog hm.prog (go_on (λ a. (hf a).prog));
      same = λ s.
          run_prog-then_prog hm.prog _ s
          ∙ (run-go_on _ f hf _ ∙ ap (λ r. continue r.0 f r.1) (hm.same s));
      calm = then_prog-Calm R P hm.prog _ hm.calm (λ o. go_on-Calm o f hf);
      safe = then_prog-Safe R P hm.prog _ hm.safe (λ o. go_on-Safe o f hf);
    }

    pub Impl-then :
        (m : Exec (State (VcdClient W) M) A) (n : Exec (State (VcdClient W) M) B)
        → Impl R P m
        → Impl R P n
        → Impl R P (m >> n)
    Impl-then m n hm hn = Impl-bind m (λ _. n) hm (λ _. hn)

    pub Impl-option :
        (o : Option A) (m : Exec (State (VcdClient W) M) B) (f : A → Exec (State (VcdClient W) M) B)
        → Impl R P m
        → ((a : A) → Impl R P (f a))
        → Impl R P (elim o [ none ↦ m | some a ↦ f a ])
    Impl-option none m f hm hf = hm
    Impl-option (some a) m f hm hf = hf a

    pub Impl-result :
        (r : Result A) (f : A → Exec (State (VcdClient W) M) B)
        (g : Error → Exec (State (VcdClient W) M) B)
        → ((a : A) → Impl R P (f a))
        → ((e : Error) → Impl R P (g e))
        → Impl R P (elim r [ ok a ↦ f a | err e ↦ g e ])
    Impl-result (ok a) f g hf hg = hf a
    Impl-result (err e) f g hf hg = hg e

  module _ {A B : Type 0} where
    -- An error that the code inspects.
    pub Impl-attempt_bind :
        (m : Exec (State (VcdClient W) M) A) (f : A → Exec (State (VcdClient W) M) B)
        (g : Error → Exec (State (VcdClient W) M) B)
        → Impl R P m
        → ((a : A) → Impl R P (f a))
        → ((e : Error) → Impl R P (g e))
        → Impl R P (attempt m >>= λ r. elim r [ ok a ↦ f a | err e ↦ g e ])
    Impl-attempt_bind m f g hm hf hg =
        Impl-bind (attempt m) _ (Impl-attempt m hm) (λ r. Impl-result r f g hf hg)
