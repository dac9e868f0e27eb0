-- ===== src/Locker/Threads/Atomic.antt =====
-- The steps of several goroutines in internal/locker/locker.go against the operations as single steps.
use vcd_csi.Prelude.{ℕ, String, ◌≡◌, ◌⊎◌, inl, inr, refl, Bool, true, false, none, arith}
use vcd_csi.Prelude.Dict.{lookup, delete}
use vcd_csi.Locker.{SimpleLock, put, is_locked}
use vcd_csi.Locker.Laws.{holds}
use vcd_csi.Locker.Threads.{
  Worker, idle, writing, reading, erasing, leaving, System, update, Step, begin_put, end_put, ask,
  enter, miss, hit, erase, leave, Reach,
}
use vcd_csi.Locker.Threads.Laws.{IsFound, Reach-IsFound}

-- What a step is in terms of the operations on the lock: the whole of a Put; the whole of a test that
-- says no, or one that says yes, whose answer the goroutine now has; or nothing.
pub data IsAtomic (s : System) (t : ℕ) (s' : System) : Type 0 where
  puts :
      (key : String)
      → s.threads t ≡ writing key
      → s'.threads t ≡ idle
      → s'.lock ≡ put key s.lock
      → IsAtomic s t s'
  tests :
      (key : String) (answer : Bool)
      → (s.threads t ≡ reading key) ⊎ (s.threads t ≡ erasing key)
      → s'.threads t ≡ leaving answer
      → is_locked key s.lock ≡ (answer, s'.lock)
      → IsAtomic s t s'
  rests :
      ((answer : Bool) → s'.threads t ≡ leaving answer → s.threads t ≡ leaving answer)
      → s'.lock ≡ s.lock
      → IsAtomic s t s'

updated : (u : ℕ) (w : Worker) (threads : ℕ → Worker) → update u w threads u ≡ w
updated u w threads = ground arith

is_locked-miss :
    (key : String) (sl : SimpleLock) → lookup key sl.storage ≡ none → is_locked key sl ≡ (false, sl)
unfolding is_locked
is_locked-miss key sl h = ground (arith, h)

is_locked-hit :
    (key : String) (sl : SimpleLock)
    → holds key sl ≡ true
    → is_locked key sl ≡ (true, record { storage = delete key sl.storage })
unfolding is_locked
is_locked-hit key sl h = ground (arith, h)

-- However several goroutines interleave their steps in the lock, each step is a whole Put at once,
-- or a whole IsLocked or Pop at once, with the answer that the goroutine then has, or changes
-- neither the lock nor an answer.
pub Step-IsAtomic : {s : System} {t : ℕ} {s' : System} → Reach s → Step s t s' → IsAtomic s t s'
unfolding IsFound
Step-IsAtomic {s} {t} {s'} r (begin_put key e) = rests (λ b q. ground (arith, q)) refl
Step-IsAtomic {s} {t} {s'} r (end_put key e) = puts key e (updated t idle s.threads) refl
Step-IsAtomic {s} {t} {s'} r (ask key e) = rests (λ b q. ground (arith, q)) refl
Step-IsAtomic {s} {t} {s'} r (enter key e m) = rests (λ b q. ground (arith, q)) refl
Step-IsAtomic {s} {t} {s'} r (miss key e l) =
    tests key false (inl e) (updated t _ s.threads) (is_locked-miss key s.lock l)
Step-IsAtomic {s} {t} {s'} r (hit key b e l) = rests (λ b q. ground (arith, q)) refl
Step-IsAtomic {s} {t} {s'} r (erase key e) =
    tests key true (inr e) (updated t _ s.threads)
      (is_locked-hit key s.lock (Reach-IsFound r t key e))
Step-IsAtomic {s} {t} {s'} r (leave b e) = rests (λ b q. ground (arith, q)) refl
