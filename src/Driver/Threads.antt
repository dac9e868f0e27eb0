-- ===== src/Driver/Threads.antt =====
-- The methods of internal/driver as goroutines, which interleave. A method of the client holds the
-- client's mutex and runs in steps of its own; the lock and the host are used without that mutex, one
-- call at a time.
pub mod Update
pub mod Sim
pub mod Serial
pub mod Impl
pub mod Keeps
pub mod Finish
pub mod Controller
pub mod Format
pub mod Node
pub mod Requests
pub mod Laws
use vcd_csi.Prelude.{ℕ, List, [], ◌∷◌, true, eqb, if◌then◌else◌}
use vcd_csi.Go.Exec.{Outcome, Exec, zoom}
use vcd_csi.Locker.{SimpleLock}
use vcd_csi.Vcd.State.{VcdClient, unlock, with_mutex}
use vcd_csi.Vcd.Steps.{Code, done, step, run_code}
use vcd_csi.Driver.State.{State, on_vcl}

-- What is reached without the client's mutex.
pub record Rest (M : Type 0) : Type 0 where
  pub lock : SimpleLock
  pub host : M

-- A method of the driver: `atom` is a call of the lock or of the host, and `call` one of the client.
pub data Prog (W M A : Type 0) : Type 1 where
  stop : Outcome A → Prog W M A
  atom : {B : Type 0} → Exec (Rest M) B → (Outcome B → Prog W M A) → Prog W M A
  call : {B : Type 0} → Code (VcdClient W) B → (Outcome B → Prog W M A) → Prog W M A

-- A goroutine, outside of the client's mutex or inside.
pub data Thread (W M A : Type 0) : Type 1 where
  out : Prog W M A → Thread W M A
  inside : {B : Type 0} → Code (VcdClient W) B → (Outcome B → Prog W M A) → Thread W M A

pub record System (W M A : Type 0) : Type 1 where
  pub state : State (VcdClient W) M
  pub threads : ℕ → Thread W M A

abbrev pub update {ℓ} : {X : Type ℓ} → ℕ → X → (ℕ → X) → ℕ → X
update i x f j = if eqb j i then x else f j

abbrev pub on_rest : {V M B : Type 0} → Exec (Rest M) B → Exec (State V M) B
unfolding zoom
on_rest =
    zoom (λ s. record { lock = s.lock; host = s.host })
      (λ r s. record s { lock = r.lock; host = r.host })

-- `v.mt.Lock()`
abbrev pub taken : {W : Type 0} → VcdClient W → VcdClient W
taken v = record v { locked = true }

module _ {W M A : Type 0} where
  -- The method without any other goroutine.
  unfoldable pub run_prog : Prog W M A → Exec (State (VcdClient W) M) A
  run_prog (stop o) s = (o, s)
  run_prog (atom m k) s = let (o, s') = on_rest m s in run_prog (k o) s'
  run_prog (call q k) s = let (o, s') = on_vcl (with_mutex (run_code q)) s in run_prog (k o) s'

  abbrev pub become : ℕ → Thread W M A → System W M A → System W M A
  become i t c = record c { threads = update i t c.threads }

  abbrev pub with_vcl : VcdClient W → System W M A → System W M A
  with_vcl v c = record c { state = record c.state { vcl = v } }

  -- One step of the goroutine `i`, which is at `t`. One that finds the mutex taken waits.
  unfoldable pub turn_at : ℕ → Thread W M A → System W M A → System W M A
  turn_at i (out (stop o)) c = c
  turn_at i (out (atom m k)) c =
      let (o, s) = on_rest m c.state in become i (out (k o)) (record c { state = s })
  turn_at i (out (call q k)) c =
      if c.state.vcl.locked then c else become i (inside q k) (with_vcl (taken c.state.vcl) c)
  turn_at i (inside (step m q) k) c =
      let (o, v) = m c.state.vcl in become i (inside (q o) k) (with_vcl v c)
  turn_at i (inside (done o) k) c =
      let (o', v) = unlock (o, c.state.vcl) in become i (out (k o')) (with_vcl v c)

  unfoldable pub turn : ℕ → System W M A → System W M A
  turn i c = turn_at i (c.threads i) c

  -- The same, with each method of the client as a single step.
  unfoldable pub whole_turn_at : ℕ → Thread W M A → System W M A → System W M A
  whole_turn_at i (out (call q k)) c =
      if c.state.vcl.locked
      then c
      else let (o, v) = with_mutex (run_code q) c.state.vcl in become i (out (k o)) (with_vcl v c)
  whole_turn_at i (out (stop o)) c = c
  whole_turn_at i (out (atom m k)) c =
      let (o, s) = on_rest m c.state in become i (out (k o)) (record c { state = s })
  whole_turn_at i (inside q k) c = c

  unfoldable pub whole_turn : ℕ → System W M A → System W M A
  whole_turn i c = whole_turn_at i (c.threads i) c

  -- The goroutines take their steps in the order of a schedule.
  unfoldable pub interleave : List ℕ → System W M A → System W M A
  interleave [] c = c
  interleave (i ∷ schedule) c = interleave schedule (turn i c)

  unfoldable pub whole_interleave : List ℕ → System W M A → System W M A
  whole_interleave [] c = c
  whole_interleave (i ∷ schedule) c = whole_interleave schedule (whole_turn i c)
