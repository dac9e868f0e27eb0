-- ===== src/Locker/Laws.antt =====
-- The lock of internal/locker/locker.go as a set of keys.
use vcd_csi.Prelude.{String, Bool, true, false, ◌≡◌, none, some, arith, ◌==◌, eq_iff, if◌then◌else◌}
use vcd_csi.Prelude.Dict.{lookup, lookup-insert, lookup-delete}
use vcd_csi.Locker.{SimpleLock, put, is_locked, pop}

-- The key is in the storage.
abbrev pub holds : String → SimpleLock → Bool
holds key sl = elim (lookup key sl.storage) [ some _ ↦ true | none ↦ false ]

-- The lock is the set of its keys: Put adds one, IsLocked and Pop both answer whether the key is
-- there and remove it, and no operation touches another key.
pub holds_lem :
    (k j : String) (sl : SimpleLock)
    → (holds j (put k sl) ≡ (if k == j then true else holds j sl))
      × ((is_locked k sl).0 ≡ holds k sl)
      × (holds j (is_locked k sl).1 ≡ (if k == j then false else holds j sl))
      × ((pop k sl).0 ≡ holds k sl)
      × (holds j (pop k sl).1 ≡ (if k == j then false else holds j sl))
unfolding put is_locked pop
holds_lem k j sl = (
  ground (arith, eq_iff k j, lookup-insert k j true sl.storage),
  ground arith,
  ground (arith, eq_iff k j, lookup-delete k j sl.storage),
  ground arith,
  ground (arith, eq_iff k j, lookup-delete k j sl.storage),
)
