-- ===== src/Go/Exec/Ensures.antt =====
-- What a call does from a state that satisfies `P`: a value that it returns satisfies `Q` with the
-- state, any other end leaves a state that satisfies `I`, and it never blocks.
use mathlib.Core.Path.{subst}
use vcd_csi.Prelude.{◌≡◌, ◌≢◌, refl, sym, Bool, true, false, if◌then◌else◌}
use vcd_csi.Go.Error.{Error}
use vcd_csi.Go.Exec.{
  Result, ok, err, Outcome, returned, panicked, blocked, Exec, attempt_outcome, pure, raise, panic,
  attempt, continue, ◌>>=◌, zoom,
}
use vcd_csi.Go.Exec.Runs.{Runs}

abbrev pub Post : {S A : Type 0} → (A → S → Type 0) → (S → Type 0) → Outcome A → S → Type 0
Post Q I (returned (ok a)) s = Q a s
Post Q I (returned (err e)) s = I s
Post Q I panicked s = I s
Post Q I blocked s = ⊥

pub record Ensures {S A : Type 0} (P : S → Type 0) (m : Exec S A) (Q : A → S → Type 0)
    (I : S → Type 0) : Type 0 where
  pub at : (s : S) → P s → Post Q I (m s).0 (m s).1

module _ {S A : Type 0} {P : S → Type 0} {Q : A → S → Type 0} {I : S → Type 0} where
  pub Ensures-pure : (a : A) → ((s : S) → P s → Q a s) → Ensures P (pure a) Q I
  unfolding pure
  Ensures-pure a h = record { at = h }

  pub Ensures-raise : (e : Error) → ((s : S) → P s → I s) → Ensures P (raise e) Q I
  unfolding raise
  Ensures-raise e h = record { at = h }

  pub Ensures-panic : ((s : S) → P s → I s) → Ensures P panic Q I
  unfolding panic
  Ensures-panic h = record { at = h }

  pub Ensures-if :
      (b : Bool) (m n : Exec S A)
      → (b ≡ true → Ensures P m Q I)
      → (b ≡ false → Ensures P n Q I)
      → Ensures P (if b then m else n) Q I
  Ensures-if true m n hm hn = hm refl
  Ensures-if false m n hm hn = hn refl

  pub Ensures-before :
      {m : Exec S A} {P' : S → Type 0} → ((s : S) → P' s → P s) → Ensures P m Q I → Ensures P' m Q I
  Ensures-before h e = record { at = λ s p. e.at s (h s p) }

module _ {S A : Type 0} (Q Q' : A → S → Type 0) (I I' : S → Type 0) where
  Post-map :
      (o : Outcome A) (s : S)
      → ((a : A) (s : S) → Q a s → Q' a s)
      → ((s : S) → I s → I' s)
      → Post Q I o s
      → Post Q' I' o s
  Post-map (returned (ok a)) s h k p = h a s p
  Post-map (returned (err e)) s h k p = k s p
  Post-map panicked s h k p = k s p
  Post-map blocked s h k p = p

  pub Ensures-after :
      {P : S → Type 0} {m : Exec S A}
      → ((a : A) (s : S) → Q a s → Q' a s)
      → ((s : S) → I s → I' s)
      → Ensures P m Q I
      → Ensures P m Q' I'
  Ensures-after {m} h k e = record { at = λ s p. Post-map (m s).0 (m s).1 h k (e.at s p) }

-- What an error value leaves is what the failed call leaves.
abbrev pub Answer : {S A : Type 0} → (A → S → Type 0) → (S → Type 0) → Result A → S → Type 0
Answer Q I (ok a) s = Q a s
Answer Q I (err e) s = I s

module _ {S A : Type 0} (Q : A → S → Type 0) (I : S → Type 0) where
  Post-attempt : (o : Outcome A) (s : S) → Post Q I o s → Post (Answer Q I) I (attempt_outcome o) s
  Post-attempt (returned (ok a)) s p = p
  Post-attempt (returned (err e)) s p = p
  Post-attempt panicked s p = p
  Post-attempt blocked s p = p

  pub Ensures-attempt :
      {P : S → Type 0} {m : Exec S A} → Ensures P m Q I → Ensures P (attempt m) (Answer Q I) I
  unfolding attempt
  Ensures-attempt {m} h = record { at = λ s p. Post-attempt (m s).0 (m s).1 (h.at s p) }

module _ {S A : Type 0} (P : S → Type 0) where
  Post-of_keeps : (o : Outcome A) (s : S) → P s → o ≢ blocked → Post (λ _. P) P o s
  Post-of_keeps (returned (ok a)) s p n = p
  Post-of_keeps (returned (err e)) s p n = p
  Post-of_keeps panicked s p n = p
  Post-of_keeps blocked s p n = n refl

  keeps_of_Post : (o : Outcome A) (s : S) → Post (λ _. P) P o s → P s
  keeps_of_Post (returned (ok a)) s p = p
  keeps_of_Post (returned (err e)) s p = p
  keeps_of_Post panicked s p = p
  keeps_of_Post blocked s p = absurd p

  ends_of_Post : (o : Outcome A) (s : S) → Post (λ _. P) P o s → o ≢ blocked
  ends_of_Post (returned r) s p e = cc
  ends_of_Post panicked s p e = cc
  ends_of_Post blocked s p e = p

module _ {S A : Type 0} {P : S → Type 0} {m : Exec S A} where
  pub Ensures-Runs : Runs P m → Ensures P m (λ _. P) P
  Ensures-Runs r = record { at = λ s p. Post-of_keeps P (m s).0 (m s).1 (r.keeps s p) (r.ends s p) }

  pub Runs-Ensures : Ensures P m (λ _. P) P → Runs P m
  Runs-Ensures h = record {
    keeps = λ s p. keeps_of_Post P (m s).0 (m s).1 (h.at s p);
    ends = λ s p. ends_of_Post P (m s).0 (m s).1 (h.at s p);
  }

module _ {S A B : Type 0} {I : S → Type 0} {R : B → S → Type 0} (Q : A → S → Type 0) where
  Post-continue :
      (o : Outcome A) (f : A → Exec S B) (s : S)
      → Post Q I o s
      → ((a : A) → Ensures (Q a) (f a) R I)
      → Post R I (continue o f s).0 (continue o f s).1
  Post-continue (returned (ok a)) f s p h = (h a).at s p
  Post-continue (returned (err e)) f s p h = p
  Post-continue panicked f s p h = p
  Post-continue blocked f s p h = absurd p

  pub Ensures-bind :
      {P : S → Type 0} {m : Exec S A} {f : A → Exec S B}
      → Ensures P m Q I
      → ((a : A) → Ensures (Q a) (f a) R I)
      → Ensures P (m >>= f) R I
  unfolding ◌>>=◌
  Ensures-bind {m} {f} hm hf = record { at = λ s p. Post-continue (m s).0 f (m s).1 (hm.at s p) hf }

module _ {S T A : Type 0} (Q : A → T → Type 0) (I : T → Type 0) (get : S → T) where
  Post-zoom :
      (o : Outcome A) (s : S) → Post Q I o (get s) → Post (λ a s. Q a (get s)) (λ s. I (get s)) o s
  Post-zoom (returned (ok a)) s p = p
  Post-zoom (returned (err e)) s p = p
  Post-zoom panicked s p = p
  Post-zoom blocked s p = p

  -- A call on a part of the state, by its conditions on that part.
  pub Ensures-zoom :
      {P : T → Type 0} {put : T → S → S} {m : Exec T A}
      → ((t : T) (s : S) → get (put t s) ≡ t)
      → Ensures P m Q I
      → Ensures (λ s. P (get s)) (zoom get put m) (λ a s. Q a (get s)) (λ s. I (get s))
  unfolding zoom
  Ensures-zoom {put} {m} law h = record {
    at = λ s p.
        Post-zoom (m (get s)).0 (put (m (get s)).1 s)
          (subst (Post Q I (m (get s)).0) (sym (law (m (get s)).1 s)) (h.at (get s) p));
  }
