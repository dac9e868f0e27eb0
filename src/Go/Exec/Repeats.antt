-- ===== src/Go/Exec/Repeats.antt =====
-- Calls that, once they have succeeded, can be repeated: the second call answers as the first did and
-- changes nothing.
use mathlib.Core.Path.{subst, fun_ext}
use vcd_csi.Prelude.{◌≡◌, refl, sym, ap, Option, none, some, Bool, true, false, if◌then◌else◌}
use vcd_csi.Go.Error.{Error}
use vcd_csi.Go.Exec.{
  ok, err, Outcome, returned, panicked, blocked, Exec, pure, raise, panic, continue, ◌>>=◌,
}

pub record Repeats {S A : Type 0} (m : Exec S A) : Type 0 where
  pub again : (s : S) (a : A) → (m s).0 ≡ returned (ok a) → m (m s).1 ≡ (returned (ok a), (m s).1)

-- A call whose outcome depends on no state, and that changes none.
pub record IsConst {S A : Type 0} (m : Exec S A) : Type 0 where
  pub outcome : Outcome A
  pub same : (s : S) → m s ≡ (outcome, s)

module _ {S A : Type 0} where
  pub IsConst-pure : (a : A) → IsConst {S = S} (pure a)
  unfolding pure
  IsConst-pure a = record { outcome = returned (ok a); same = λ s. refl }

  pub IsConst-raise : (e : Error) → IsConst {S = S} {A = A} (raise e)
  unfolding raise
  IsConst-raise e = record { outcome = returned (err e); same = λ s. refl }

  pub IsConst-panic : IsConst {S = S} {A = A} panic
  unfolding panic
  IsConst-panic = record { outcome = panicked; same = λ s. refl }

  pub IsConst-if :
      (b : Bool) (m n : Exec S A) → IsConst m → IsConst n → IsConst (if b then m else n)
  IsConst-if true m n h k = h
  IsConst-if false m n h k = k

  pub Repeats-IsConst : {m : Exec S A} → IsConst m → Repeats m
  Repeats-IsConst {m} h = record {
    again = λ s a e.
        subst (λ r. r.0 ≡ returned (ok a) → m r.1 ≡ (returned (ok a), r.1)) (sym (h.same s))
          (λ o. subst (λ o. m s ≡ (o, s)) o (h.same s)) e;
  }

module _ {S A B : Type 0} where
  pub IsConst-option :
      (o : Option A) (next : A → Exec S B) (missing : Exec S B)
      → ((a : A) → IsConst (next a))
      → IsConst missing
      → IsConst (elim o [ some a ↦ next a | none ↦ missing ])
  IsConst-option none next missing h k = k
  IsConst-option (some a) next missing h k = h a

  continue-Repeats :
      (o : Outcome A) (f : A → Exec S B) → ((a : A) → Repeats (f a)) → Repeats (continue o f)
  continue-Repeats (returned (ok a)) f h = record { again = (h a).again }
  continue-Repeats (returned (err x)) f h = record { again = λ s b e. cc }
  continue-Repeats panicked f h = record { again = λ s b e. cc }
  continue-Repeats blocked f h = record { again = λ s b e. cc }

  -- A call that depends on no state may stand in front.
  pub Repeats-bind :
      (m : Exec S A) (f : A → Exec S B) → IsConst m → ((a : A) → Repeats (f a)) → Repeats (m >>= f)
  unfolding ◌>>=◌
  Repeats-bind m f c h =
      subst Repeats (sym (fun_ext (λ s. ap (λ r. continue r.0 f r.1) (c.same s))))
        (continue-Repeats c.outcome f h)

  continue-ok :
      (o : Outcome A) (f : A → Exec S B) (t : S) (b : B)
      → (continue o f t).0 ≡ returned (ok b)
      → (a : A) × (o ≡ returned (ok a)) × (continue o f t ≡ f a t)
  continue-ok (returned (ok a)) f t b e = (a, refl, refl)
  continue-ok (returned (err x)) f t b e = absurd cc
  continue-ok panicked f t b e = absurd cc
  continue-ok blocked f t b e = absurd cc

  -- A chain that succeeded is its second call, from where the first one ended.
  pub bind-ok :
      (m : Exec S A) (f : A → Exec S B) (s : S) (b : B)
      → ((m >>= f) s).0 ≡ returned (ok b)
      → (a : A) × ((m s).0 ≡ returned (ok a)) × ((m >>= f) s ≡ f a (m s).1)
  unfolding ◌>>=◌
  bind-ok m f s b e = continue-ok (m s).0 f (m s).1 b e
