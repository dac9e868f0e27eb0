-- ===== src/Driver/Threads/Update.antt =====
-- A family of goroutines with one of them changed.
use mathlib.Core.Path.{fun_ext}
use vcd_csi.Prelude.{ℕ, ◌≡◌, ◌≢◌, refl, Bool, true, false, arith, eqb, if◌then◌else◌}
use vcd_csi.Driver.Threads.{update}

module _ {X : Type 1} where
  pub picked :
      (P : X → Type 0) (b : Bool) (x y : X) → P x → (b ≡ false → P y) → P (if b then x else y)
  picked P true x y p q = p
  picked P false x y p q = q refl

  pub updated : (i : ℕ) (x : X) (f : ℕ → X) → update i x f i ≡ x
  updated i x f = ground arith

  pub update_other : (i j : ℕ) (x : X) (f : ℕ → X) → j ≢ i → update i x f j ≡ f j
  update_other i j x f n = ground (arith, n)

  pub update_twice : (i : ℕ) (x y : X) (f : ℕ → X) → update i x (update i y f) ≡ update i x f
  update_twice i x y f = fun_ext (λ j. ground arith)

  pub update_same : (i : ℕ) (x : X) (f : ℕ → X) → f i ≡ x → update i x f ≡ f
  update_same i x f h = fun_ext (λ j. ground (arith, h))

  pub update_comm :
      (i j : ℕ) (x y : X) (f : ℕ → X)
      → j ≢ i
      → update i x (update j y f) ≡ update j y (update i x f)
  update_comm i j x y f n = fun_ext (λ l. ground (arith, n))

pub apart : (i j : ℕ) → eqb i j ≡ false → i ≢ j
apart i j n e = ground (arith, n, e)
