-- ===== src/Prelude/Lists.antt =====
-- Lists measured by native numbers, under the library's names, and predicates on their elements.
use Prim.Native.Nat.{ℕ, suc, ◌+◌}
use mathlib.Core.Path.{◌≡◌, subst}
use mathlib.Core.Logic.{◌↔◌, ◌⊎◌, inl, inr}
use mathlib.Core.Bool.{Bool}
use mathlib.Core.List.{List, [], ◌∷◌, ◌++◌, Permᴰ}
use native.Mathlib.Omega.{arith}
use vcd_csi.Prelude.Tests.{if◌then◌else◌}

module _ {ℓ} {A : Type ℓ} where
  abbrev pub length : List A → ℕ
  length [] = 0
  length (x ∷ xs) = suc (length xs)

  -- `append` in a loop that keeps what passes a test
  abbrev pub keep : (A → Bool) → List A → List A
  keep p [] = []
  keep p (x ∷ xs) = let rest = keep p xs in if p x then x ∷ rest else rest

  pub length-append : (xs ys : List A) → length (xs ++ ys) ≡ length xs + length ys
  length-append [] ys = omega arith
  length-append (x ∷ xs) ys = omega (arith, length-append xs ys)

abbrev pub All {ℓ κ} : {A : Type ℓ} → (A → Type κ) → List A → Type κ
All P [] = Unit
All P (x ∷ xs) = P x × All P xs

-- One element at least satisfies the predicate.
pub data Any {ℓ κ} {A : Type ℓ} (P : A → Type κ) : List A → Type (ℓ ⊔ κ) where
  first : {x : A} {xs : List A} → P x → Any P (x ∷ xs)
  later : {x : A} {xs : List A} → Any P xs → Any P (x ∷ xs)

pub Any-nil {ℓ κ} : {A : Type ℓ} {P : A → Type κ} → ¬ Any P []
Any-nil a = elim a [ ]

module _ {ℓ κ} {A : Type ℓ} {P : A → Type κ} where
  pub Any-cons : {x : A} {xs : List A} → Any P (x ∷ xs) → P x ⊎ Any P xs
  Any-cons (first h) = inl h
  Any-cons (later a) = inr a

  -- An element that does not count may be put in front.
  pub Any-skip {μ} :
      {U : Type μ} {x : A} {xs : List A} → (¬ P x) → (U ⊎ Any P xs) ↔ (U ⊎ Any P (x ∷ xs))
  Any-skip n = (
    λ h. elim h [ inl u ↦ inl u | inr a ↦ inr (later a) ],
    λ h. elim h [
      | inl u ↦ inl u
      | inr a ↦ elim (Any-cons a) [ inl p ↦ absurd (n p) | inr b ↦ inr b ]
    ],
  )

  -- What is known of the first element may be kept apart.
  pub Any-move {μ ν} :
      {U : Type μ} {Q : Type ν} {x : A} {xs : List A}
      → Q ↔ P x
      → ((U ⊎ Q) ⊎ Any P xs) ↔ (U ⊎ Any P (x ∷ xs))
  Any-move same = (
    λ h. elim h [
      | inl i ↦ elim i [ inl u ↦ inl u | inr q ↦ inr (first (same.0 q)) ]
      | inr a ↦ inr (later a)
    ],
    λ h. elim h [
      | inl u ↦ inl (inl u)
      | inr a ↦ elim (Any-cons a) [ inl p ↦ inl (inr (same.1 p)) | inr b ↦ inr b ]
    ],
  )

  -- Neither predicate depends on the order of the list.
  pub Any-Permᴰ : {xs ys : List A} → Permᴰ xs ys → Any P xs → Any P ys
  Any-Permᴰ Permᴰ.nil a = elim a [ ]
  Any-Permᴰ (Permᴰ.cons e p) (first h) = first (subst P e h)
  Any-Permᴰ (Permᴰ.cons e p) (later a) = later (Any-Permᴰ p a)
  Any-Permᴰ (Permᴰ.swap e f) (first h) = later (first (subst P e h))
  Any-Permᴰ (Permᴰ.swap e f) (later (first h)) = first (subst P f h)
  Any-Permᴰ (Permᴰ.swap e f) (later (later a)) = later (later a)
  Any-Permᴰ (Permᴰ.trans p q) a = Any-Permᴰ q (Any-Permᴰ p a)

module _ {ℓ κ} {A : Type ℓ} (P : A → Type κ) where
  pub All-Permᴰ : {xs ys : List A} → Permᴰ xs ys → All P xs → All P ys
  All-Permᴰ Permᴰ.nil h = tt
  All-Permᴰ (Permᴰ.cons e p) (h, hs) = (subst P e h, All-Permᴰ p hs)
  All-Permᴰ (Permᴰ.swap e f) (h, (k, hs)) = (subst P f k, (subst P e h, hs))
  All-Permᴰ (Permᴰ.trans p q) h = All-Permᴰ q (All-Permᴰ p h)
