-- ===== src/Vcd/Steps.antt =====
-- The bodies of the methods of pkg/vcd-client/client.go in steps, one for each use of the client's
-- state: a call of the cloud, or an access of the map of data centres.
pub mod Calls
pub mod Bodies
pub mod Methods
use mathlib.Core.Path.{fun_ext}
use vcd_csi.Prelude.{◌≡◌, refl, sym, ap, ◌∙◌, Bool, true, false, Option, none, some, if◌then◌else◌}
use vcd_csi.Go.Error.{Error}
use vcd_csi.Vcd.State.{VcdClient, with_mutex, unlock}
use vcd_csi.Go.Exec.{
  Result, ok, err, Outcome, returned, panicked, blocked, Exec, pure, raise, panic, attempt,
  attempt_outcome, continue, ◌>>=◌, ◌>>◌,
}

pub data Code (T A : Type 0) : Type 1 where
  done : Outcome A → Code T A
  step : {B : Type 0} → Exec T B → (Outcome B → Code T A) → Code T A

unfoldable pub run_code : {T A : Type 0} → Code T A → Exec T A
run_code (done o) t = (o, t)
run_code (step m k) t = let (o, t') = m t in run_code (k o) t'

unfoldable chain : {T A B : Type 0} → Code T A → (Outcome A → Code T B) → Code T B
chain (done o) next = next o
chain (step m k) next = step m (λ o. chain (k o) next)

abbrev go_on : {T A B : Type 0} → (A → Code T B) → Outcome A → Code T B
go_on next (returned (ok a)) = next a
go_on next (returned (err e)) = done (returned (err e))
go_on next panicked = done panicked
go_on next blocked = done blocked

run_code-chain :
    {T A B : Type 0} (q : Code T A) (next : Outcome A → Code T B) (t : T)
    → run_code (chain q next) t ≡ run_code (next (run_code q t).0) (run_code q t).1
unfolding chain run_code
run_code-chain (done o) next t = refl
run_code-chain (step m k) next t = run_code-chain (k (m t).0) next (m t).1

module _ {T : Type 0} (R : T → T → Type 0) where
  -- Every step of the body goes from a state to one that `R` relates to it.
  unfoldable pub Along : {A : Type 0} → Code T A → Type 0
  Along (done o) = Unit
  Along (step {B} m k) = ((t : T) → R t (m t).1) × ((o : Outcome B) → Along (k o))

  chain-Along :
      {A B : Type 0} (q : Code T A) (next : Outcome A → Code T B)
      → Along q
      → ((o : Outcome A) → Along (next o))
      → Along (chain q next)
  unfolding chain Along
  chain-Along (done o) next h n = n o
  chain-Along (step m k) next h n = (h.0, λ o. chain-Along (k o) next (h.1 o) n)

  -- The call `m` in steps.
  pub record Cut {A : Type 0} (m : Exec T A) : Type 1 where
    pub code : Code T A
    pub same : (t : T) → run_code code t ≡ m t
    pub along : Along code

module _ {T : Type 0} {R : T → T → Type 0} where
  module _ {A : Type 0} where
    -- A call that is one step.
    pub Cut-step : (m : Exec T A) → ((t : T) → R t (m t).1) → Cut R m
    unfolding Along run_code
    Cut-step m h = record { code = step m done; same = λ t. refl; along = (h, λ o. tt) }

    pub Cut-pure : (a : A) → Cut R (pure a)
    unfolding Along run_code ◌>>=◌
    Cut-pure a = record { code = done (returned (ok a)); same = λ t. refl; along = tt }

    pub Cut-raise : (e : Error) → Cut R (raise {A = A} e)
    unfolding Along run_code ◌>>=◌
    Cut-raise e = record { code = done (returned (err e)); same = λ t. refl; along = tt }

    pub Cut-panic : Cut R (panic {A = A})
    unfolding Along run_code ◌>>=◌
    Cut-panic = record { code = done panicked; same = λ t. refl; along = tt }

    pub Cut-if :
        (b : Bool) (m n : Exec T A)
        → (b ≡ true → Cut R m)
        → (b ≡ false → Cut R n)
        → Cut R (if b then m else n)
    Cut-if true m n hm hn = hm refl
    Cut-if false m n hm hn = hn refl

    pub Cut-attempt : (m : Exec T A) → Cut R m → Cut R (attempt m)
    unfolding Along run_code ◌>>=◌
    Cut-attempt m h = record {
      code = chain h.code (λ o. done (attempt_outcome o));
      same = λ t. run_code-chain h.code _ t ∙ ap (λ r. (attempt_outcome r.0, r.1)) (h.same t);
      along = chain-Along R h.code _ h.along (λ o. tt);
    }

  module _ {A B : Type 0} where
    run-go_on :
        (o : Outcome A) (f : A → Exec T B) (h : (a : A) → Cut R (f a)) (t : T)
        → run_code (go_on (λ a. (h a).code) o) t ≡ continue o f t
    unfolding run_code
    run-go_on (returned (ok a)) f h t = (h a).same t
    run-go_on (returned (err e)) f h t = refl
    run-go_on panicked f h t = refl
    run-go_on blocked f h t = refl

    go_on-Along :
        (o : Outcome A) (f : A → Exec T B) (h : (a : A) → Cut R (f a))
        → Along R (go_on (λ a. (h a).code) o)
    unfolding Along
    go_on-Along (returned (ok a)) f h = (h a).along
    go_on-Along (returned (err e)) f h = tt
    go_on-Along panicked f h = tt
    go_on-Along blocked f h = tt

    pub Cut-bind :
        (m : Exec T A) (f : A → Exec T B) → Cut R m → ((a : A) → Cut R (f a)) → Cut R (m >>= f)
    unfolding ◌>>=◌
    Cut-bind m f hm hf = record {
      code = chain hm.code (go_on (λ a. (hf a).code));
      same = λ t.
          run_code-chain hm.code _ t
          ∙ (run-go_on _ f hf _ ∙ ap (λ r. continue r.0 f r.1) (hm.same t));
      along = chain-Along R hm.code _ hm.along (λ o. go_on-Along o f hf);
    }

    pub Cut-option :
        (o : Option A) (m : Exec T B) (f : A → Exec T B)
        → Cut R m
        → ((a : A) → Cut R (f a))
        → Cut R (elim o [ none ↦ m | some a ↦ f a ])
    Cut-option none m f hm hf = hm
    Cut-option (some a) m f hm hf = hf a

    Cut-result :
        (r : Result A) (f : A → Exec T B) (g : Error → Exec T B)
        → ((a : A) → Cut R (f a))
        → ((e : Error) → Cut R (g e))
        → Cut R (elim r [ ok a ↦ f a | err e ↦ g e ])
    Cut-result (ok a) f g hf hg = hf a
    Cut-result (err e) f g hf hg = hg e

  module _ {A B : Type 0} where
    pub Cut-attempt_bind :
        (m : Exec T A) (f : A → Exec T B) (g : Error → Exec T B)
        → Cut R m
        → ((a : A) → Cut R (f a))
        → ((e : Error) → Cut R (g e))
        → Cut R (attempt m >>= λ r. elim r [ ok a ↦ f a | err e ↦ g e ])
    Cut-attempt_bind m f g hm hf hg =
        Cut-bind (attempt m) _ (Cut-attempt m hm) (λ r. Cut-result r f g hf hg)

-- A method of the client: a body in steps, under the mutex.
pub record Method {W A : Type 0} (R : VcdClient W → VcdClient W → Type 0) (m : Exec (VcdClient W) A)
    : Type 1 where
  pub body : Code (VcdClient W) A
  pub same : with_mutex (run_code body) ≡ m
  pub along : Along R body

pub Method-with_mutex :
    {W A : Type 0} {R : VcdClient W → VcdClient W → Type 0} (m : Exec (VcdClient W) A)
    → Cut R m
    → Method R (with_mutex m)
Method-with_mutex m h = record {
  body = h.code;
  same = ap with_mutex (fun_ext h.same);
  along = h.along;
}
