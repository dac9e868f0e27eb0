-- ===== src/Go/Exec.antt =====
-- Calls that read and write a state. A call returns a value or an error, panics, or blocks for ever
-- on a mutex that its own caller holds. What was written before the end stays written.
pub mod Runs
pub mod Ensures
pub mod Keeps
pub mod Returns
pub mod Repeats
use vcd_csi.Prelude.{Option, none, some}
use vcd_csi.Go.Error.{Error}

-- Go's `(A, error)`, where one of the two is meant.
pub data Result {ℓ} (A : Type ℓ) : Type ℓ where
  ok : A → Result A
  err : Error → Result A

pub data Outcome {ℓ} (A : Type ℓ) : Type ℓ where
  returned : Result A → Outcome A
  panicked : Outcome A
  blocked : Outcome A

abbrev pub Exec {ℓ} : Type ℓ → Type ℓ → Type ℓ
Exec S A = S → Outcome A × S

abbrev pub attempt_outcome {ℓ} : {A : Type ℓ} → Outcome A → Outcome (Result A)
attempt_outcome (returned r) = returned (ok r)
attempt_outcome panicked = panicked
attempt_outcome blocked = blocked

module _ {ℓ} {S A : Type ℓ} where
  pub pure : A → Exec S A
  pure a s = (returned (ok a), s)

  -- `return err`
  pub raise : Error → Exec S A
  raise e s = (returned (err e), s)

  pub panic : Exec S A
  panic s = (panicked, s)

  pub gets : (S → A) → Exec S A
  gets f s = (returned (ok (f s)), s)

  -- `*p`, for a pointer that may be nil
  pub deref : Option A → Exec S A
  deref none s = (panicked, s)
  deref (some a) s = (returned (ok a), s)

  -- `a, err := m`, where the code inspects the error
  pub attempt : Exec S A → Exec S (Result A)
  attempt m s = let (r, s') = m s in (attempt_outcome r, s')

module _ {ℓ} {S A B : Type ℓ} where
  abbrev pub continue : Outcome A → (A → Exec S B) → Exec S B
  continue (returned (ok a)) f s = f a s
  continue (returned (err e)) f s = (returned (err e), s)
  continue panicked f s = (panicked, s)
  continue blocked f s = (blocked, s)

  infixl 10 ◌>>=◌ ◌>>◌
  -- opening this opens the calls above
  unfoldable pub ◌>>=◌ : Exec S A → (A → Exec S B) → Exec S B
  unfolding pure raise panic gets deref attempt
  ◌>>=◌ m f s = let (r, s') = m s in continue r f s'

  abbrev pub ◌>>◌ : Exec S A → Exec S B → Exec S B
  m >> n = m >>= λ _. n

-- A call on a part of the state.
unfoldable pub zoom {ℓ} : {S T A : Type ℓ} → (S → T) → (T → S → S) → Exec T A → Exec S A
zoom get put m s = let (r, t) = m (get s) in (r, put t s)
