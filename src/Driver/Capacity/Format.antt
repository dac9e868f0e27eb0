-- ===== src/Driver/Capacity/Format.antt =====
-- `formatBytes` of internal/driver/disk.go: a size as the messages print it.
use vcd_csi.Prelude.{ℕ, zero, suc, ◌^◌, ◌≤◌, ◌<◌, String, ◌<>◌, ◌≡◌, arith, if◌then◌else◌}
use vcd_csi.Go.Int.{ℤ, pos, eq_ℤ, leb_ℤ}

-- Numbers of 64 bits with a fraction, and the functions of Go's library on them and on their texts:
-- `strconv.FormatFloat(x, 'f', 1, 64)` and `strings.TrimSuffix`.
pub record Floats (F : Type 0) : Type 0 where
  pub float64 : ℤ → F
  pub divide : F → F → F
  pub format_float : F → String
  pub trim_suffix : String → String → String

module _ {F : Type 0} (floats : Floats F) where
  unfoldable pub print : F → String → String
  print output unit = floats.trim_suffix (floats.format_float output) ".0" <> unit

  unfoldable pub in_units : ℤ → ℕ → String → String
  in_units input_bytes size unit =
      print (floats.divide (floats.float64 input_bytes) (floats.float64 (pos size))) unit

  unfoldable pub format_bytes : ℤ → String
  format_bytes input_bytes =
      if leb_ℤ (pos (2 ^ 40)) input_bytes
      then in_units input_bytes (2 ^ 40) "Ti"
      else if leb_ℤ (pos (2 ^ 30)) input_bytes
      then in_units input_bytes (2 ^ 30) "Gi"
      else if leb_ℤ (pos (2 ^ 20)) input_bytes
      then in_units input_bytes (2 ^ 20) "Mi"
      else if leb_ℤ (pos (2 ^ 10)) input_bytes
      then in_units input_bytes (2 ^ 10) "Ki"
      else if eq_ℤ input_bytes (pos 0)
      then "0"
      else print (floats.float64 input_bytes) ""

-- The name of a power of 1024.
abbrev pub unit_name : ℕ → String
unit_name zero = ""
unit_name (suc zero) = "Ki"
unit_name (suc (suc zero)) = "Mi"
unit_name (suc (suc (suc zero))) = "Gi"
unit_name _ = "Ti"

module _ {F : Type 0} (floats : Floats F) where
  -- A size from 1024^k on, and below the next power if it has a name, is printed in units of 1024^k.
  pub format_bytes-in_units :
      (k n : ℕ)
      → 1 ≤ k
      → k ≤ 4
      → 1024 ^ k ≤ n
      → (k < 4 → n < 1024 ^ suc k)
      → format_bytes floats (pos n) ≡ in_units floats (pos n) (1024 ^ k) (unit_name k)
  unfolding format_bytes
  format_bytes-in_units zero n a b c d = absurd (omega arith)
  format_bytes-in_units (suc zero) n a b c d = ground (arith, c, d)
  format_bytes-in_units (suc (suc zero)) n a b c d = ground (arith, c, d)
  format_bytes-in_units (suc (suc (suc zero))) n a b c d = ground (arith, c, d)
  format_bytes-in_units (suc (suc (suc (suc zero)))) n a b c d = ground (arith, c, d)
  format_bytes-in_units (suc (suc (suc (suc (suc k))))) n a b c d = absurd (omega arith)
