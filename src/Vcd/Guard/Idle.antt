-- ===== src/Vcd/Guard/Idle.antt =====
-- A client between two methods, and what the mutex and the refresh around each of them keep.
use vcd_csi.Prelude.{◌≡◌, ◌≢◌, refl, false}
use vcd_csi.Go.Exec.{Outcome, returned, panicked, blocked, Exec}
use vcd_csi.Go.Exec.Runs.{Runs, Runs-bind, Runs-gets}
use vcd_csi.Config.{ControllerConfig}
use vcd_csi.Cloud.{Cloud, Handle}
use vcd_csi.Vcd.State.{VcdClient, unlock, with_mutex}
use vcd_csi.Vcd.Find.{entities}
use vcd_csi.Vcd.Service.{method}
use vcd_csi.Vcd.Trace.{Traced, traced}
use vcd_csi.Vcd.Guard.{On, IsGuarded}
use vcd_csi.Vcd.Guard.Calls.{refresh_auth-Runs}

-- Between two methods: the mutex is free and every request so far was guarded.
pub record IsIdle {W : Type 0} (s : VcdClient (Traced W)) : Type 0 where
  pub free : s.locked ≡ false
  pub guarded : IsGuarded s.cloud.events

module _ {W A : Type 0} where
  unlock-IsIdle :
      (o : Outcome A) (s : VcdClient (Traced W))
      → On IsGuarded s
      → o ≢ blocked
      → IsIdle (unlock (o, s)).1 × ((unlock (o, s)).0 ≢ blocked)
  unfolding unlock
  unlock-IsIdle (returned r) s p n = (record { free = refl; guarded = p.1 }, λ e. cc)
  unlock-IsIdle panicked s p n = (record { free = refl; guarded = p.1 }, λ e. cc)
  unlock-IsIdle blocked s p n = absurd (n refl)

  pub with_mutex-Runs :
      (m : Exec (VcdClient (Traced W)) A) → Runs (On IsGuarded) m → Runs IsIdle (with_mutex m)
  unfolding with_mutex
  with_mutex-Runs m r = record {
    keeps = λ s h.
        rw h.free (unlock-IsIdle _ _ (r.keeps _ (refl, h.guarded)) (r.ends _ (refl, h.guarded))).0;
    ends = λ s h.
        rw h.free (unlock-IsIdle _ _ (r.keeps _ (refl, h.guarded)) (r.ends _ (refl, h.guarded))).1;
  }

module _ {W : Type 0} (cloud : Cloud W) (c : ControllerConfig) where
  pub method-Runs :
      {A : Type 0} (m : Exec (VcdClient (Traced W)) A)
      → Runs (On IsGuarded) m
      → Runs IsIdle (method (traced cloud) c m)
  unfolding method
  method-Runs m r = with_mutex-Runs _ (Runs-bind _ _ (refresh_auth-Runs cloud c IsGuarded) (λ _. r))

  pub entities-Runs : (client : Handle) → Runs (On IsGuarded) (entities (traced cloud) client)
  unfolding entities
  entities-Runs client = Runs-gets _
