-- ===== src/Locker.antt =====
-- internal/locker/locker.go: the volumes that wait for a resize. The two methods that take the
-- mutex are single steps; `Put` does not take it.
pub mod Laws
pub mod View
pub mod Threads
use vcd_csi.Prelude.{String, Bool, true, false, [], none, some}
use vcd_csi.Prelude.Dict.{Dict, lookup, insert, delete}

pub record SimpleLock : Type 0 where
  pub storage : Dict Bool

unfoldable pub new_simple_lock : SimpleLock
new_simple_lock = record { storage = [] }

unfoldable pub put : String → SimpleLock → SimpleLock
put key sl = record { storage = insert key true sl.storage }

-- The answer removes the key.
unfoldable pub is_locked : String → SimpleLock → Bool × SimpleLock
is_locked key sl = elim (lookup key sl.storage) [
  | some _ ↦ (true, record { storage = delete key sl.storage })
  | none ↦ (false, sl)
]

unfoldable pub pop : String → SimpleLock → Bool × SimpleLock
pop key sl = elim (lookup key sl.storage) [
  | some _ ↦ (true, record { storage = delete key sl.storage })
  | none ↦ (false, sl)
]
