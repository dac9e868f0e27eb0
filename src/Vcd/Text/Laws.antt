-- ===== src/Vcd/Text/Laws.antt =====
-- The text of a number, read back.
use vcd_csi.Prelude.{
  ℕ, zero, suc, ◌+◌, ◌*◌, ◌/◌, ◌%◌, ◌^◌, ◌<◌, String, ◌<>◌, ◌≡◌, ◌≢◌, ◌∙◌, refl, ap, ◌-◌, some,
  arith,
}
use text.Mathlib.TextLemmas.{nil-append, cons-append, append-ne-nil_of_right_ne-nil}
use mathlib.Core.Option.{some-injective}
use Prim.Native.Char.{code}
use vcd_csi.Go.Int.{pos}
use vcd_csi.Go.Exec.{ok}
use vcd_csi.Cloud.{Disk}
use vcd_csi.Mount.Text.{digits, unsigned, parse_uint}
use vcd_csi.Vcd.Text.{itoa, digit, decimal}
use vcd_csi.Vcd.Attach.{attach_params}

digits-append : (n m : ℕ) (s t : String) → digits n s ≡ some m → digits n (s <> t) ≡ digits m t
unfolding digits
digits-append n m String.[] t h = rw (nil-append t) (ap (λ k. digits k t) (some-injective _ _ h))
digits-append n m (String.◌∷◌ c s) t h =
    rw (cons-append c s t) (ground (arith, h, digits-append (n * 10 + (code c - 48)) m s t))

digits-digit : (n d : ℕ) → d < 10 → digits n (digit d) ≡ some (n * 10 + d)
unfolding digits digit
digits-digit n zero h = refl
digits-digit n (suc zero) h = refl
digits-digit n (suc (suc zero)) h = refl
digits-digit n (suc (suc (suc zero))) h = refl
digits-digit n (suc (suc (suc (suc zero)))) h = refl
digits-digit n (suc (suc (suc (suc (suc zero))))) h = refl
digits-digit n (suc (suc (suc (suc (suc (suc zero)))))) h = refl
digits-digit n (suc (suc (suc (suc (suc (suc (suc zero))))))) h = refl
digits-digit n (suc (suc (suc (suc (suc (suc (suc (suc zero)))))))) h = refl
digits-digit n (suc (suc (suc (suc (suc (suc (suc (suc (suc zero))))))))) h = refl
digits-digit n (suc (suc (suc (suc (suc (suc (suc (suc (suc (suc d)))))))))) h =
    absurd (omega arith)

-- The number of rounds is enough for the number.
decimal-digits : (fuel n : ℕ) → n < fuel → digits 0 (decimal fuel n) ≡ some n
unfolding decimal
decimal-digits zero n h = absurd (omega arith)
decimal-digits (suc fuel) n h = ground (
  arith,
  digits-digit 0 n,
  digits-digit (n / 10) (n % 10),
  digits-append 0 (n / 10) (decimal fuel (n / 10)) (digit (n % 10)),
  decimal-digits fuel (n / 10),
)

digit-ne-nil : (d : ℕ) → digit d ≢ String.[]
unfolding digit
digit-ne-nil zero = λ e. cc
digit-ne-nil (suc zero) = λ e. cc
digit-ne-nil (suc (suc zero)) = λ e. cc
digit-ne-nil (suc (suc (suc zero))) = λ e. cc
digit-ne-nil (suc (suc (suc (suc zero)))) = λ e. cc
digit-ne-nil (suc (suc (suc (suc (suc zero))))) = λ e. cc
digit-ne-nil (suc (suc (suc (suc (suc (suc zero)))))) = λ e. cc
digit-ne-nil (suc (suc (suc (suc (suc (suc (suc zero))))))) = λ e. cc
digit-ne-nil (suc (suc (suc (suc (suc (suc (suc (suc zero)))))))) = λ e. cc
digit-ne-nil (suc (suc (suc (suc (suc (suc (suc (suc (suc zero))))))))) = λ e. cc
digit-ne-nil (suc (suc (suc (suc (suc (suc (suc (suc (suc (suc d)))))))))) = λ e. cc

decimal-ne-nil : (fuel n : ℕ) → decimal (suc fuel) n ≢ String.[]
unfolding decimal
decimal-ne-nil fuel n = ground (
  arith,
  digit-ne-nil n,
  append-ne-nil_of_right_ne-nil (decimal fuel (n / 10)) (digit-ne-nil (n % 10)),
)

unsigned-digits : (s : String) → s ≢ String.[] → unsigned s ≡ digits 0 s
unfolding unsigned
unsigned-digits String.[] h = absurd (h refl)
unsigned-digits (String.◌∷◌ c s) h = refl

unsigned-itoa : (n : ℕ) → unsigned (itoa (pos n)) ≡ some n
unfolding itoa
unsigned-itoa n = unsigned-digits _ (decimal-ne-nil n n) ∙ decimal-digits (suc n) n (omega arith)

parse_uint-unsigned : (s : String) (n : ℕ) → unsigned s ≡ some n → n < 2 ^ 64 → parse_uint s ≡ ok n
unfolding parse_uint
parse_uint-unsigned s n e h = ground (arith, e)

-- The path of an attached disk reads back as the number of its unit.
pub parse_uint-attach_params :
    (name : String) (unit : ℕ) (disk : Disk)
    → unit < 2 ^ 64
    → parse_uint (attach_params name (pos unit) disk).path ≡ ok unit
unfolding attach_params
parse_uint-attach_params name unit disk h = parse_uint-unsigned _ unit (unsigned-itoa unit) h
