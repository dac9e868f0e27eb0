-- ===== src/Locker/Threads/Release.antt =====
-- The mutex of internal/locker/locker.go is given back by its holder, whatever the others do.
use vcd_csi.Prelude.{
  ℕ, String, ◌≡◌, inl, inr, refl, Bool, true, false, none, some, arith, Option-cases,
}
use vcd_csi.Prelude.Dict.{lookup}
use vcd_csi.Locker.Threads.{
  Worker, idle, writing, waiting, reading, erasing, leaving, System, update, Step, begin_put,
  end_put, ask, enter, miss, hit, erase, leave, Reach, start, later,
}
use vcd_csi.Locker.Threads.Laws.{IsInside, IsOwned, Reach-IsOwned}

-- The holder is between `Lock` and `Unlock`.
IsHeld : System → Type 0
IsHeld s = (u : ℕ) → s.holder ≡ some u → IsInside (s.threads u)

Step-IsHeld : {s : System} {t : ℕ} {s' : System} → Step s t s' → IsOwned s → IsHeld s → IsHeld s'
unfolding IsHeld IsOwned
Step-IsHeld {s} {t} {s'} (begin_put key e) o h u i = ground (arith, h u, h t)
Step-IsHeld {s} {t} {s'} (end_put key e) o h u i = ground (arith, h u, h t)
Step-IsHeld {s} {t} {s'} (ask key e) o h u i = ground (arith, h u, h t)
Step-IsHeld {s} {t} {s'} (enter key e m) o h u i = ground (arith, h u, h t)
Step-IsHeld {s} {t} {s'} (miss key e l) o h u i = ground (arith, h u, h t)
Step-IsHeld {s} {t} {s'} (hit key b e l) o h u i = ground (arith, h u, h t)
Step-IsHeld {s} {t} {s'} (erase key e) o h u i = ground (arith, h u, h t)
Step-IsHeld {s} {t} {s'} (leave b e) o h u i = ground (arith, h u, o t)

Reach-IsHeld : {s : System} → Reach s → IsHeld s
unfolding IsHeld
Reach-IsHeld start u i = cc
Reach-IsHeld (later r step) u i = Step-IsHeld step (Reach-IsOwned r) (Reach-IsHeld r) u i

-- Steps of one goroutine alone.
pub data Alone (u : ℕ) : System → System → Type 0 where
  stop : {s : System} → Alone u s s
  go : {s s' s'' : System} → Step s u s' → Alone u s' s'' → Alone u s s''

-- The mutex is free again, and the goroutine has its answer.
abbrev pub Releases : ℕ → System → Type 0
Releases u s = (s' : System) × Alone u s s' × (s'.holder ≡ none) × (s'.threads u ≡ idle)

updated : (u : ℕ) (w : Worker) (threads : ℕ → Worker) → update u w threads u ≡ w
updated u w threads = ground arith

from_leaving : (s : System) (u : ℕ) (b : Bool) → s.threads u ≡ leaving b → Releases u s
from_leaving s u b e = (_, go (leave b e) stop, refl, updated u idle s.threads)

before : {s s' : System} {u : ℕ} → Step s u s' → Releases u s' → Releases u s
before step r = (r.0, go step r.1, r.2, r.3)

from_erasing : (s : System) (u : ℕ) (key : String) → s.threads u ≡ erasing key → Releases u s
from_erasing s u key e = before (erase key e) (from_leaving _ u true (updated u _ s.threads))

from_reading : (s : System) (u : ℕ) (key : String) → s.threads u ≡ reading key → Releases u s
from_reading s u key e = elim (Option-cases (lookup key s.lock.storage)) [
  | inl n ↦ before (miss key e n) (from_leaving _ u false (updated u _ s.threads))
  | inr b ↦ before (hit key b.0 e b.1) (from_erasing _ u key (updated u _ s.threads))
]

inside : (s : System) (u : ℕ) (w : Worker) → s.threads u ≡ w → IsInside w → Releases u s
inside s u (reading key) e i = from_reading s u key e
inside s u (erasing key) e i = from_erasing s u key e
inside s u (leaving b) e i = from_leaving s u b e
inside s u idle e i = absurd i
inside s u (writing key) e i = absurd i
inside s u (waiting key) e i = absurd i

-- However several goroutines interleave their steps in the lock, the one that has the mutex can by
-- its own steps alone give it back and be done with its call.
pub Reach-Releases : {s : System} {u : ℕ} → Reach s → s.holder ≡ some u → Releases u s
unfolding IsHeld
Reach-Releases {s} {u} r h = inside s u (s.threads u) refl (Reach-IsHeld r u h)
