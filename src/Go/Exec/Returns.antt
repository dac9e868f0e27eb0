-- ===== src/Go/Exec/Returns.antt =====
-- A predicate on the state that a call keeps, while it returns, by a value or an error.
use vcd_csi.Go.Error.{Error}
use vcd_csi.Go.Exec.{
  Result, ok, err, Outcome, returned, panicked, blocked, Exec, pure, raise, continue, ◌>>=◌,
}

abbrev pub IsReturned : {A : Type 0} → Outcome A → Type 0
IsReturned (returned r) = Unit
IsReturned panicked = ⊥
IsReturned blocked = ⊥

pub record Returns {S A : Type 0} (P : S → Type 0) (m : Exec S A) : Type 0 where
  pub keeps : (s : S) → P s → P (m s).1
  pub ends : (s : S) → IsReturned (m s).0

module _ {S A : Type 0} {P : S → Type 0} where
  pub Returns-pure : (a : A) → Returns P (pure a)
  unfolding pure
  Returns-pure a = record { keeps = λ s p. p; ends = λ s. tt }

  pub Returns-raise : (e : Error) → Returns P (raise {A = A} e)
  unfolding raise
  Returns-raise e = record { keeps = λ s p. p; ends = λ s. tt }

module _ {S A B : Type 0} {P : S → Type 0} where
  Returns-continue :
      (o : Outcome A) (f : A → Exec S B)
      → IsReturned o
      → ((a : A) → Returns P (f a))
      → Returns P (continue o f)
  Returns-continue (returned (ok a)) f h k = record { keeps = (k a).keeps; ends = (k a).ends }
  Returns-continue (returned (err e)) f h k = record { keeps = λ s p. p; ends = λ s. tt }
  Returns-continue panicked f h k = absurd h
  Returns-continue blocked f h k = absurd h

  pub Returns-result :
      (r : Result A) (failed : Error → Exec S B) (next : A → Exec S B)
      → ((e : Error) → Returns P (failed e))
      → ((a : A) → Returns P (next a))
      → Returns P (elim r [ err e ↦ failed e | ok a ↦ next a ])
  Returns-result (ok a) failed next hf hn = hn a
  Returns-result (err e) failed next hf hn = hf e

  pub Returns-bind :
      (m : Exec S A) (f : A → Exec S B)
      → Returns P m
      → ((a : A) → Returns P (f a))
      → Returns P (m >>= f)
  unfolding ◌>>=◌
  Returns-bind m f h k = record {
    keeps = λ s p. (Returns-continue (m s).0 f (h.ends s) k).keeps (m s).1 (h.keeps s p);
    ends = λ s. (Returns-continue (m s).0 f (h.ends s) k).ends (m s).1;
  }
