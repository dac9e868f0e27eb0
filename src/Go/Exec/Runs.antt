-- ===== src/Go/Exec/Runs.antt =====
-- A predicate on the state that a call keeps, however it ends, while it never blocks: one rule for
-- each way to build a call.
use vcd_csi.Prelude.{◌≡◌, ◌≢◌, refl, Bool, true, false, Option, none, some, if◌then◌else◌}
use vcd_csi.Go.Error.{Error}
use vcd_csi.Go.Exec.{
  Result, ok, err, Outcome, returned, panicked, blocked, Exec, attempt_outcome, pure, raise, panic,
  gets, deref, attempt, continue, ◌>>=◌, ◌>>◌,
}

pub record Runs {ℓ} {S A : Type ℓ} (P : S → Type ℓ) (m : Exec S A) : Type ℓ where
  pub keeps : (s : S) → P s → P (m s).1
  pub ends : (s : S) → P s → (m s).0 ≢ blocked

attempt_outcome-ne-blocked {ℓ} :
    {A : Type ℓ} (r : Outcome A) → r ≢ blocked → attempt_outcome r ≢ blocked
attempt_outcome-ne-blocked (returned r) h e = cc
attempt_outcome-ne-blocked panicked h e = cc
attempt_outcome-ne-blocked blocked h e = h refl

module _ {ℓ} {S A : Type ℓ} {P : S → Type ℓ} where
  pub Runs-pure : (a : A) → Runs P (pure a)
  unfolding pure
  Runs-pure a = record { keeps = λ s h. h; ends = λ s h e. cc }

  pub Runs-raise : (e : Error) → Runs P (raise {A = A} e)
  unfolding raise
  Runs-raise e = record { keeps = λ s h. h; ends = λ s h e. cc }

  pub Runs-panic : Runs P (panic {A = A})
  unfolding panic
  Runs-panic = record { keeps = λ s h. h; ends = λ s h e. cc }

  pub Runs-gets : (f : S → A) → Runs P (gets f)
  unfolding gets
  Runs-gets f = record { keeps = λ s h. h; ends = λ s h e. cc }

  pub Runs-deref : (o : Option A) → Runs P (deref o)
  unfolding deref
  Runs-deref none = record { keeps = λ s h. h; ends = λ s h e. cc }
  Runs-deref (some a) = record { keeps = λ s h. h; ends = λ s h e. cc }

  pub Runs-attempt : (m : Exec S A) → Runs P m → Runs P (attempt m)
  unfolding attempt
  Runs-attempt m r = record {
    keeps = r.keeps;
    ends = λ s h. attempt_outcome-ne-blocked (m s).0 (r.ends s h);
  }

  pub Runs-if :
      (b : Bool) (m n : Exec S A)
      → (b ≡ true → Runs P m)
      → (b ≡ false → Runs P n)
      → Runs P (if b then m else n)
  Runs-if true m n hm hn = hm refl
  Runs-if false m n hm hn = hn refl

module _ {ℓ} {S A B : Type ℓ} {P : S → Type ℓ} where
  Runs-continue :
      (r : Outcome A) (f : A → Exec S B)
      → r ≢ blocked
      → ((a : A) → Runs P (f a))
      → Runs P (continue r f)
  Runs-continue (returned (ok a)) f h hf = record { keeps = (hf a).keeps; ends = (hf a).ends }
  Runs-continue (returned (err e)) f h hf = record { keeps = λ s h. h; ends = λ s h e. cc }
  Runs-continue panicked f h hf = record { keeps = λ s h. h; ends = λ s h e. cc }
  Runs-continue blocked f h hf = absurd (h refl)

  pub Runs-bind :
      (m : Exec S A) (f : A → Exec S B) → Runs P m → ((a : A) → Runs P (f a)) → Runs P (m >>= f)
  unfolding ◌>>=◌
  Runs-bind m f hm hf = record {
    keeps = λ s h. (Runs-continue (m s).0 f (hm.ends s h) hf).keeps (m s).1 (hm.keeps s h);
    ends = λ s h. (Runs-continue (m s).0 f (hm.ends s h) hf).ends (m s).1 (hm.keeps s h);
  }

  pub Runs-then : (m : Exec S A) (n : Exec S B) → Runs P m → Runs P n → Runs P (m >> n)
  Runs-then m n hm hn = Runs-bind m (λ _. n) hm (λ _. hn)

  pub Runs-result :
      (r : Result A) (f : A → Exec S B) (g : Error → Exec S B)
      → ((a : A) → Runs P (f a))
      → ((e : Error) → Runs P (g e))
      → Runs P (elim r [ ok a ↦ f a | err e ↦ g e ])
  Runs-result (ok a) f g hf hg = hf a
  Runs-result (err e) f g hf hg = hg e

  pub Runs-option :
      (o : Option A) (m : Exec S B) (f : A → Exec S B)
      → Runs P m
      → ((a : A) → Runs P (f a))
      → Runs P (elim o [ none ↦ m | some a ↦ f a ])
  Runs-option none m f hm hf = hm
  Runs-option (some a) m f hm hf = hf a

module _ {ℓ} {S A B : Type ℓ} {P : S → Type ℓ} where
  -- An error that the code inspects.
  pub Runs-attempt_bind :
      (m : Exec S A) (f : A → Exec S B) (g : Error → Exec S B)
      → Runs P m
      → ((a : A) → Runs P (f a))
      → ((e : Error) → Runs P (g e))
      → Runs P (attempt m >>= λ r. elim r [ ok a ↦ f a | err e ↦ g e ])
  Runs-attempt_bind m f g hm hf hg =
      Runs-bind (attempt m) _ (Runs-attempt m hm) (λ r. Runs-result r f g hf hg)

pub ruleset runs_rules = (
  Runs-pure, Runs-raise, Runs-panic, Runs-gets, Runs-deref, Runs-attempt, Runs-if, Runs-bind,
  Runs-then, Runs-result, Runs-option,
)
