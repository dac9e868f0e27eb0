-- ===== src/Go/Exec/Keeps.antt =====
-- A predicate on the state that a call keeps, however it ends; it may block.
use mathlib.Core.Path.{subst}
use vcd_csi.Go.Exec.Runs.{Runs}
use vcd_csi.Prelude.{◌≡◌, sym, Bool, true, false, if◌then◌else◌}
use vcd_csi.Go.Error.{Error}
use vcd_csi.Go.Exec.{
  Result, ok, err, Outcome, returned, panicked, blocked, Exec, pure, raise, attempt, continue,
  ◌>>=◌, ◌>>◌, zoom,
}

pub record Keeps {S A : Type 0} (P : S → Type 0) (m : Exec S A) : Type 0 where
  pub at : (s : S) → P s → P (m s).1

module _ {S A : Type 0} {P : S → Type 0} where
  pub Keeps-pure : (a : A) → Keeps P (pure a)
  unfolding pure
  Keeps-pure a = record { at = λ s p. p }

  pub Keeps-raise : (e : Error) → Keeps P (raise {A = A} e)
  unfolding raise
  Keeps-raise e = record { at = λ s p. p }

  pub Keeps-if : (b : Bool) (m n : Exec S A) → Keeps P m → Keeps P n → Keeps P (if b then m else n)
  Keeps-if true m n hm hn = hm
  Keeps-if false m n hm hn = hn

  attempted : (call : Exec S A) → Keeps P call → Keeps P (attempt call)
  unfolding attempt
  attempted call hc = record { at = hc.at }

module _ {S A B : Type 0} {P : S → Type 0} where
  result-Keeps :
      (r : Result A) (next : A → Exec S B) (failed : Error → Exec S B)
      → ((a : A) → Keeps P (next a))
      → ((e : Error) → Keeps P (failed e))
      → Keeps P (elim r [ ok a ↦ next a | err e ↦ failed e ])
  result-Keeps (ok a) next failed hn hf = hn a
  result-Keeps (err e) next failed hn hf = hf e

  Keeps-continue :
      (o : Outcome A) (f : A → Exec S B) → ((a : A) → Keeps P (f a)) → Keeps P (continue o f)
  Keeps-continue (returned (ok a)) f h = record { at = (h a).at }
  Keeps-continue (returned (err e)) f h = record { at = λ s p. p }
  Keeps-continue panicked f h = record { at = λ s p. p }
  Keeps-continue blocked f h = record { at = λ s p. p }

  pub Keeps-bind :
      (call : Exec S A) (next : A → Exec S B)
      → Keeps P call
      → ((a : A) → Keeps P (next a))
      → Keeps P (call >>= next)
  unfolding ◌>>=◌
  Keeps-bind call next hc hn = record {
    at = λ s p. (Keeps-continue (call s).0 next hn).at (call s).1 (hc.at s p);
  }

  pub Keeps-then :
      (call : Exec S A) (next : Exec S B) → Keeps P call → Keeps P next → Keeps P (call >> next)
  Keeps-then call next hc hn = Keeps-bind call (λ _. next) hc (λ _. hn)

module _ {S A B : Type 0} {P : S → Type 0} where
  -- An error that the code inspects.
  pub Keeps-attempt :
      (call : Exec S A) (next : A → Exec S B) (failed : Error → Exec S B)
      → Keeps P call
      → ((a : A) → Keeps P (next a))
      → ((e : Error) → Keeps P (failed e))
      → Keeps P (attempt call >>= λ r. elim r [ ok a ↦ next a | err e ↦ failed e ])
  Keeps-attempt call next failed hc hn hf =
      Keeps-bind (attempt call) _ (attempted call hc) (λ r. result-Keeps r next failed hn hf)

module _ {S A : Type 0} {P : S → Type 0} {m : Exec S A} where
  pub Keeps-Runs : Runs P m → Keeps P m
  Keeps-Runs r = record { at = r.keeps }

module _ {S T A : Type 0} {P : T → Type 0} where
  -- A call on a part of the state.
  pub Keeps-zoom :
      (get : S → T) (put : T → S → S) (m : Exec T A)
      → ((t : T) (s : S) → get (put t s) ≡ t)
      → Keeps P m
      → Keeps (λ s. P (get s)) (zoom get put m)
  unfolding zoom
  Keeps-zoom get put m law h = record {
    at = λ s p. subst P (sym (law (m (get s)).1 s)) (h.at (get s) p);
  }
