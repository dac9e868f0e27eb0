-- ===== src/StorageSize/Laws.antt =====
-- Sizes in bytes and in megabytes: which of them survive the conversion.
use vcd_csi.Prelude.{ℕ, ◌-◌, ◌*◌, ◌/◌, ◌%◌, ◌^◌, ◌<◌, ◌≡◌, ap, arith}
use vcd_csi.Go.Int.{pos, wrap-pos, mul, quot}
use vcd_csi.StorageSize.{new_storage_size, new_storage_size_from_mb, mb, bytes}

mul-pos : (n k : ℕ) → n * k < 2 ^ 63 → mul (pos n) k ≡ pos (n * k)
unfolding mul
mul-pos n k h = wrap-pos (n * k) h

-- The bytes of a whole number of megabytes, below the overflow.
pub bytes-from_mb :
    (n : ℕ) → n < 2 ^ 43 → bytes (new_storage_size_from_mb (pos n)) ≡ pos (n * 2 ^ 20)
unfolding new_storage_size_from_mb bytes
bytes-from_mb n h =
    rw (mul-pos n 1024 (omega arith))
      (rw (mul-pos (n * 1024) 1024 (omega arith)) (ap pos (omega arith)))

-- A size below 2^63 bytes that goes through whole megabytes loses its remainder modulo 2^20 and
-- nothing else.
pub bytes-from_mb-mb :
    (n : ℕ)
    → n < 2 ^ 63
    → bytes (new_storage_size_from_mb (mb (new_storage_size (pos n)))) ≡ pos (n - n % 2 ^ 20)
unfolding mb quot new_storage_size
bytes-from_mb-mb n h = rw (bytes-from_mb (n / 1024 / 1024) (omega arith)) (ap pos (omega arith))
