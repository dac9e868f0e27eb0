-- ===== src/StorageSize.antt =====
-- pkg/types/disk.go: a storage size, in bytes, as an `int64`.
pub mod Laws
use vcd_csi.Go.Int.{ℤ, mul, quot}

pub record StorageSize : Type 0 where
  pub b : ℤ

-- mb*1024*1024, with the wrap-around of each product
unfoldable pub new_storage_size_from_mb : ℤ → StorageSize
unfolding mul
new_storage_size_from_mb mb = record { b = mul (mul mb 1024) 1024 }

unfoldable pub new_storage_size : ℤ → StorageSize
new_storage_size b = record { b = b }

unfoldable pub mb : StorageSize → ℤ
unfolding quot
mb s = quot (quot s.b 1024) 1024

unfoldable pub bytes : StorageSize → ℤ
bytes s = s.b
