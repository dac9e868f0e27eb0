-- ===== src/Go/Int.antt =====
-- Go's `int64` and `int`: an integer between -2^63 and 2^63 - 1, with the wrap-around of `*`
-- written out by `wrap` and the division that truncates towards zero.
use vcd_csi.Prelude.{
  ℕ, zero, suc, ◌+◌, ◌-◌, ◌*◌, ◌/◌, ◌%◌, ◌^◌, ◌<◌, ◌≡◌, Bool, true, false, arith, ltb, leb, eqb,
  if◌then◌else◌,
}

-- `negsuc n` is -(n + 1).
pub data ℤ : Type 0 where
  pos : ℕ → ℤ
  negsuc : ℕ → ℤ

-- -n
abbrev pub negate : ℕ → ℤ
negate zero = pos 0
negate (suc n) = negsuc n

abbrev pub eq_ℤ : ℤ → ℤ → Bool
eq_ℤ (pos a) (pos b) = eqb a b
eq_ℤ (pos a) (negsuc b) = false
eq_ℤ (negsuc a) (pos b) = false
eq_ℤ (negsuc a) (negsuc b) = eqb a b

-- a < b
abbrev pub ltb_ℤ : ℤ → ℤ → Bool
ltb_ℤ (pos a) (pos b) = ltb a b
ltb_ℤ (pos a) (negsuc b) = false
ltb_ℤ (negsuc a) (pos b) = true
ltb_ℤ (negsuc a) (negsuc b) = ltb b a

-- a ≤ b
abbrev pub leb_ℤ : ℤ → ℤ → Bool
leb_ℤ (pos a) (pos b) = leb a b
leb_ℤ (pos a) (negsuc b) = false
leb_ℤ (negsuc a) (pos b) = true
leb_ℤ (negsuc a) (negsuc b) = leb b a

-- The 64-bit two's complement reading of an integer.
unfoldable pub wrap : ℤ → ℤ
wrap (pos n) = let r = n % 2 ^ 64 in if ltb r (2 ^ 63) then pos r else negate (2 ^ 64 - r)
wrap (negsuc n) = let r = suc n % 2 ^ 64 in if leb r (2 ^ 63) then negate r else pos (2 ^ 64 - r)

-- a * k
unfoldable pub mul : ℤ → ℕ → ℤ
unfolding wrap
mul (pos n) k = wrap (pos (n * k))
mul (negsuc n) k = wrap (negate (suc n * k))

-- a / k, towards zero
unfoldable pub quot : ℤ → ℕ → ℤ
quot (pos n) k = pos (n / k)
quot (negsuc n) k = negate (suc n / k)

-- The values of an `int64`.
abbrev pub InRange : ℤ → Type 0
InRange (pos n) = n < 2 ^ 63
InRange (negsuc n) = n < 2 ^ 63

pub wrap-pos : (n : ℕ) → n < 2 ^ 63 → wrap (pos n) ≡ pos n
unfolding wrap
wrap-pos n h = ground arith

-- Whatever the integer, its reading is a value of `int64`.
pub wrap-InRange : (a : ℤ) → InRange (wrap a)
unfolding wrap
wrap-InRange (pos n) = ground arith
wrap-InRange (negsuc n) = ground arith

pub eq_ℤ→eq : (a b : ℤ) → eq_ℤ a b ≡ true → a ≡ b
eq_ℤ→eq a b h = ground arith

pub eq_ℤ_refl : (a : ℤ) → eq_ℤ a a ≡ true
eq_ℤ_refl a = ground arith

infix 50 ◌<ℤ◌ ◌≤ℤ◌
abbrev pub ◌<ℤ◌ : ℤ → ℤ → Type 0
a <ℤ b = ltb_ℤ a b ≡ true

abbrev pub ◌≤ℤ◌ : ℤ → ℤ → Type 0
a ≤ℤ b = leb_ℤ a b ≡ true

abbrev opposite : ℤ → ℤ
opposite (pos n) = negate n
opposite (negsuc n) = pos (suc n)

-- a * b, of two `int64`
unfoldable pub times : ℤ → ℤ → ℤ
unfolding mul
times a (pos k) = mul a k
times a (negsuc k) = mul (opposite a) (suc k)

-- a - b, of two `int64`
unfoldable pub minus : ℤ → ℤ → ℤ
unfolding wrap
minus (pos a) (pos b) = wrap (if leb b a then pos (a - b) else negate (b - a))
minus (pos a) (negsuc b) = wrap (pos (a + suc b))
minus (negsuc a) (pos b) = wrap (negate (suc a + b))
minus (negsuc a) (negsuc b) = wrap (if leb a b then pos (b - a) else negate (a - b))
