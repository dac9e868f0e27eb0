-- ===== src/Locker/Threads.antt =====
-- The lock of internal/locker/locker.go under several goroutines: a step for each access of the map
-- and of the mutex. An access of the map is one step that takes effect, and another thread may come
-- between the steps of one call; what the runtime makes of two accesses at once is not modelled.
pub mod Laws
pub mod Release
pub mod Atomic
use vcd_csi.Prelude.{
  ℕ, String, List, [], ◌∷◌, ◌≡◌, Bool, true, false, Option, none, some, eqb, if◌then◌else◌,
}
use vcd_csi.Prelude.Dict.{lookup, delete}
use vcd_csi.Locker.{SimpleLock, new_simple_lock, put}

-- A goroutine: in `Put`, or in `IsLocked` or `Pop`, whose bodies are the same: before `sl.m.Lock()`,
-- before the test, before the deletion, and before the deferred `sl.m.Unlock()`, with its answer.
pub data Worker : Type 0 where
  idle : Worker
  writing : String → Worker
  waiting : String → Worker
  reading : String → Worker
  erasing : String → Worker
  leaving : Bool → Worker

-- `holder` is the goroutine that has the mutex. The last two fields only record what happened: the
-- keys that were put, and those that were answered to be there.
pub record System : Type 0 where
  pub lock : SimpleLock
  pub holder : Option ℕ
  pub threads : ℕ → Worker
  pub given : List String
  pub taken : List String

abbrev pub update : ℕ → Worker → (ℕ → Worker) → ℕ → Worker
update t w threads u = if eqb u t then w else threads u

abbrev pub move : ℕ → Worker → System → System
move t w s = record s { threads = update t w s.threads }

abbrev pub init : System
init = record {
  lock = record { storage = [] };
  holder = none;
  threads = λ t. idle;
  given = [];
  taken = [];
}

pub data Step (s : System) (t : ℕ) : System → Type 0 where
  begin_put : (key : String) → s.threads t ≡ idle → Step s t (move t (writing key) s)
  end_put :
      (key : String)
      → s.threads t ≡ writing key
      → Step s t (move t idle (record s { lock = put key s.lock; given = key ∷ s.given }))
  ask : (key : String) → s.threads t ≡ idle → Step s t (move t (waiting key) s)
  enter :
      (key : String)
      → s.threads t ≡ waiting key
      → s.holder ≡ none
      → Step s t (move t (reading key) (record s { holder = some t }))
  miss :
      (key : String)
      → s.threads t ≡ reading key
      → lookup key s.lock.storage ≡ none
      → Step s t (move t (leaving false) s)
  hit :
      (key : String) (b : Bool)
      → s.threads t ≡ reading key
      → lookup key s.lock.storage ≡ some b
      → Step s t (move t (erasing key) s)
  erase :
      (key : String)
      → s.threads t ≡ erasing key
      → Step s t (
          move t (leaving true) (record s {
            lock = record { storage = delete key s.lock.storage };
            taken = key ∷ s.taken;
          }))
  leave : (b : Bool) → s.threads t ≡ leaving b → Step s t (move t idle (record s { holder = none }))

pub data Reach : System → Type 0 where
  start : Reach init
  later : {s : System} {t : ℕ} {s' : System} → Reach s → Step s t s' → Reach s'
