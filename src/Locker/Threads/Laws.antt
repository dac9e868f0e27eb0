-- ===== src/Locker/Threads/Laws.antt =====
-- What several goroutines can rely on in the lock of internal/locker/locker.go.
use vcd_csi.Prelude.{
  ℕ, ◌+◌, ◌≤◌, String, List, ◌≡◌, ◌≢◌, ◌⊎◌, true, some, arith, ◌==◌, eq_iff, if◌then◌else◌, keep,
  length,
}
use vcd_csi.Prelude.Dict.{lookup, lookup-delete}
use vcd_csi.Locker.{SimpleLock}
use vcd_csi.Locker.Laws.{holds, holds_lem}
use vcd_csi.Locker.Threads.{
  Worker, writing, reading, erasing, leaving, System, Step, begin_put, end_put, ask, enter, miss,
  hit, erase, leave, Reach, start, later,
}

-- Between `Lock` and `Unlock`.
abbrev pub IsInside : Worker → Type 0
IsInside (reading key) = Unit
IsInside (erasing key) = Unit
IsInside (leaving b) = Unit
IsInside _ = ⊥

-- About to read or write the map.
abbrev pub Touches : Worker → Type 0
Touches (writing key) = Unit
Touches (reading key) = Unit
Touches (erasing key) = Unit
Touches _ = ⊥

abbrev pub IsPut : Worker → Type 0
IsPut (writing key) = Unit
IsPut _ = ⊥

unfoldable pub IsOwned : System → Type 0
IsOwned s = (u : ℕ) → IsInside (s.threads u) → s.holder ≡ some u

Step-IsOwned : {s : System} {t : ℕ} {s' : System} → Step s t s' → IsOwned s → IsOwned s'
unfolding IsOwned
Step-IsOwned {s} {t} {s'} (begin_put key e) h u i = ground (arith, h u, h t)
Step-IsOwned {s} {t} {s'} (end_put key e) h u i = ground (arith, h u, h t)
Step-IsOwned {s} {t} {s'} (ask key e) h u i = ground (arith, h u, h t)
Step-IsOwned {s} {t} {s'} (enter key e m) h u i = ground (arith, h u, h t)
Step-IsOwned {s} {t} {s'} (miss key e l) h u i = ground (arith, h u, h t)
Step-IsOwned {s} {t} {s'} (hit key b e l) h u i = ground (arith, h u, h t)
Step-IsOwned {s} {t} {s'} (erase key e) h u i = ground (arith, h u, h t)
Step-IsOwned {s} {t} {s'} (leave b e) h u i = ground (arith, h u, h t)

pub Reach-IsOwned : {s : System} → Reach s → IsOwned s
unfolding IsOwned
Reach-IsOwned start u i = absurd i
Reach-IsOwned (later r step) u i = Step-IsOwned step (Reach-IsOwned r) u i

-- However several goroutines interleave their steps in the lock, if two of them are about to touch
-- the map at once, then one of the two is in Put.
pub Reach-Touches :
    {s : System} {t u : ℕ}
    → Reach s
    → t ≢ u
    → Touches (s.threads t)
    → Touches (s.threads u)
    → IsPut (s.threads t) ⊎ IsPut (s.threads u)
unfolding IsOwned
Reach-Touches {s} {t} {u} r n a b = ground (arith, Reach-IsOwned r t, Reach-IsOwned r u)

-- A key that is about to be deleted is there.
unfoldable pub IsFound : System → Type 0
IsFound s = (u : ℕ) (key : String) → s.threads u ≡ erasing key → holds key s.lock ≡ true

Step-IsFound : {s : System} {t : ℕ} {s' : System} → Step s t s' → IsOwned s → IsFound s → IsFound s'
unfolding IsFound IsOwned
Step-IsFound {s} {t} {s'} (begin_put k e) o h u key i = ground (arith, h u key)
Step-IsFound {s} {t} {s'} (end_put k e) o h u key i =
    ground (arith, h u key, (holds_lem k key s.lock).0)
Step-IsFound {s} {t} {s'} (ask k e) o h u key i = ground (arith, h u key)
Step-IsFound {s} {t} {s'} (enter k e m) o h u key i = ground (arith, h u key)
Step-IsFound {s} {t} {s'} (miss k e l) o h u key i = ground (arith, h u key)
Step-IsFound {s} {t} {s'} (hit k b e l) o h u key i = ground (arith, h u key)
Step-IsFound {s} {t} {s'} (erase k e) o h u key i = ground (arith, h u key, o u, o t)
Step-IsFound {s} {t} {s'} (leave b e) o h u key i = ground (arith, h u key)

pub Reach-IsFound : {s : System} → Reach s → IsFound s
unfolding IsFound
Reach-IsFound start u key i = cc
Reach-IsFound (later r step) u key i = Step-IsFound step (Reach-IsOwned r) (Reach-IsFound r) u key i

-- How often a key is in a list.
abbrev pub count : String → List String → ℕ
count key keys = length (keep (λ k. k == key) keys)

abbrev pub stored : String → SimpleLock → ℕ
stored key lock = if holds key lock then 1 else 0

IsPaid : String → System → Type 0
IsPaid key s = count key s.taken + stored key s.lock ≤ count key s.given

Step-IsPaid :
    {s : System} {t : ℕ} {s' : System} (key : String)
    → Step s t s'
    → IsFound s
    → IsPaid key s
    → IsPaid key s'
unfolding IsPaid IsFound
Step-IsPaid {s} {t} {s'} key (begin_put k e) f h = h
Step-IsPaid {s} {t} {s'} key (end_put k e) f h =
    ground (arith, h, eq_iff k key, (holds_lem k key s.lock).0)
Step-IsPaid {s} {t} {s'} key (ask k e) f h = h
Step-IsPaid {s} {t} {s'} key (enter k e m) f h = h
Step-IsPaid {s} {t} {s'} key (miss k e l) f h = h
Step-IsPaid {s} {t} {s'} key (hit k b e l) f h = h
Step-IsPaid {s} {t} {s'} key (erase k e) f h =
    ground (arith, h, f t k e, eq_iff k key, lookup-delete k key s.lock.storage)
Step-IsPaid {s} {t} {s'} key (leave b e) f h = h

-- However several goroutines interleave their steps in the lock, the number of times that a key
-- was answered to be there and removed, with one more if it is there now, is at most the number of
-- times that it was put.
pub Reach-count :
    {s : System} (key : String)
    → Reach s
    → count key s.taken + stored key s.lock ≤ count key s.given
unfolding IsPaid lookup
Reach-count key start = omega arith
Reach-count key (later r step) = Step-IsPaid key step (Reach-IsFound r) (Reach-count key r)
