-- ===== src/Locker/View.antt =====
-- The lock of internal/locker/locker.go by what it answers: the entries of its map in any order, and
-- whatever is stored with a key.
use mathlib.Core.Quot
use mathlib.Core.Quot.{Quot}
use vcd_csi.Prelude.{String, true, false, ◌≡◌, ◌≢◌, refl, arith, ◌==◌, eq_iff, if◌then◌else◌}
use vcd_csi.Locker.{SimpleLock, put, is_locked, pop}
use vcd_csi.Locker.Laws.{holds, holds_lem}

-- Two locks with the same keys.
abbrev pub SameKeys : SimpleLock → SimpleLock → Type 0
SameKeys sl sl' = (key : String) → holds key sl ≡ holds key sl'

abbrev pub View : Type 0
View = Quot SameKeys

abbrev pub view : SimpleLock → View
view = Quot.mk

holds-put :
    (j k : String) (sl : SimpleLock) → holds j (put k sl) ≡ (if k == j then true else holds j sl)
holds-put j k sl = (holds_lem k j sl).0

holds-is_locked :
    (j k : String) (sl : SimpleLock)
    → holds j (is_locked k sl).1 ≡ (if k == j then false else holds j sl)
holds-is_locked j k sl = (holds_lem k j sl).2

pop-is_locked : (k : String) (sl : SimpleLock) → pop k sl ≡ is_locked k sl
unfolding pop is_locked
pop-is_locked k sl = refl

-- Calls of the lock for two different volumes can be swapped: each answers the same, and the lock
-- they leave is the same up to the order of its entries and what is stored with a key; Pop and
-- IsLocked are the same call.
pub view_comm :
    (k j : String) (sl : SimpleLock)
    → k ≢ j
    → (view (put k (put j sl)) ≡ view (put j (put k sl)))
      × ((is_locked k (put j sl)).0 ≡ (is_locked k sl).0)
      × (view (is_locked k (put j sl)).1 ≡ view (put j (is_locked k sl).1))
      × ((is_locked k (is_locked j sl).1).0 ≡ (is_locked k sl).0)
      × (view (is_locked k (is_locked j sl).1).1 ≡ view (is_locked j (is_locked k sl).1).1)
      × (pop k sl ≡ is_locked k sl)
view_comm k j sl n = (
  Quot.sound (λ a. ground (
    arith,
    n,
    eq_iff k a,
    eq_iff j a,
    holds-put a k (put j sl),
    holds-put a j sl,
    holds-put a j (put k sl),
    holds-put a k sl,
  )),
  ground
      (arith, n, eq_iff j k, (holds_lem k j (put j sl)).1, (holds_lem k j sl).1, holds-put k j sl),
  Quot.sound (λ a. ground (
    arith,
    n,
    eq_iff k a,
    eq_iff j a,
    holds-is_locked a k (put j sl),
    holds-put a j sl,
    holds-put a j (is_locked k sl).1,
    holds-is_locked a k sl,
  )),
  ground (
    arith,
    n,
    eq_iff j k,
    (holds_lem k j (is_locked j sl).1).1,
    (holds_lem k j sl).1,
    holds-is_locked k j sl,
  ),
  Quot.sound (λ a. ground (
    arith,
    n,
    eq_iff k a,
    eq_iff j a,
    holds-is_locked a k (is_locked j sl).1,
    holds-is_locked a j sl,
    holds-is_locked a j (is_locked k sl).1,
    holds-is_locked a k sl,
  )),
  pop-is_locked k sl,
)
