-- ===== src/Driver/Threads/Laws.antt =====
-- The requests to internal/driver, each on its goroutine, in any order of their steps.
use mathlib.Core.Path.{subst}
use vcd_csi.Prelude.{ℕ, List, ◌++◌, ◌≡◌, refl, sym, ap, ◌∙◌, false}
use vcd_csi.Go.Exec.{Outcome}
use vcd_csi.Config.{ControllerConfig}
use vcd_csi.Cloud.{Cloud}
use vcd_csi.Vcd.State.{VcdClient}
use vcd_csi.Vcd.Units.Laws.{IsOrder}
use vcd_csi.Vcd.Service.{Visit}
use vcd_csi.Vcd.Trace.{Traced}
use vcd_csi.Vcd.Guard.Idle.{IsIdle}
use vcd_csi.Vcd.Steps.Calls.{Onward}
use vcd_csi.Driver.State.{Mounter, State}
use vcd_csi.Driver.Capabilities.{StringSets}
use vcd_csi.Driver.Session.{Request}
use vcd_csi.Driver.Threads.{Thread, stop, out, inside, System, interleave, whole_interleave}
use vcd_csi.Driver.Threads.Sim.{Sim, free, Ready}
use vcd_csi.Driver.Threads.Serial.{interleave-Sim}
use vcd_csi.Driver.Threads.Keeps.{IsSafe, Sound, whole_interleave-Sound}
use vcd_csi.Driver.Threads.Finish.{
  finish, Sim-Leads, ended-Finished, run_prog-keeps, interleave-append,
}
use vcd_csi.Driver.Threads.Requests.{driver_call-Impl, start}

-- The goroutine `i` is done, and the client is idle.
abbrev pub Done : {W M A : Type 0} → ℕ → System (Traced W) M A → Type 1
Done {A} i c = ((o : Outcome A) × (c.threads i ≡ out (stop o))) × IsIdle c.state.vcl

module _ {W M Set : Type 0} (cloud : Cloud W) (c : ControllerConfig) (visit : Visit)
    (order : IsOrder visit.units) (sets : StringSets Set) (m : Mounter M) where
  abbrev begun : (ℕ → Request) → State (VcdClient (Traced W)) M → System (Traced W) M (Unit {0})
  begun = start cloud c visit order sets m

  start-Sim :
      (requests : ℕ → Request) (s : State (VcdClient (Traced W)) M)
      → Sim Onward (begun requests s) (begun requests s)
  unfolding start Ready
  start-Sim requests s = free (λ i. (driver_call-Impl cloud c visit order sets m (requests i)).calm)

  start-Sound :
      (requests : ℕ → Request) (s : State (VcdClient (Traced W)) M)
      → IsIdle s.vcl
      → Sound IsIdle (begun requests s)
  unfolding start IsSafe
  start-Sound requests s h = record {
    well = h;
    safe = λ i. (driver_call-Impl cloud c visit order sets m (requests i)).safe;
  }

  -- However many goroutines serve requests to the driver at once and in any order of their steps,
  -- there is an order of steps in which each method of the client is a single step and which leads
  -- to the same system, client, lock, host and goroutines, or to the one that is left once the
  -- only goroutine inside a method of the client, which then holds the mutex, has come to its end.
  pub interleave-whole_interleave :
      (requests : ℕ → Request) (schedule : List ℕ) (s : State (VcdClient (Traced W)) M)
      → (schedule' : List ℕ) × Sim Onward
          (interleave schedule (begun requests s))
          (whole_interleave schedule' (begun requests s))
  interleave-whole_interleave requests schedule s =
      interleave-Sim (λ v v' r. r.stays) schedule (start-Sim requests s)

  idle_free : (v : VcdClient (Traced W)) → IsIdle v → v.locked ≡ false
  idle_free v h = h.free

  finishes :
      (i : ℕ) (t : Thread (Traced W) M (Unit {0})) (a : System (Traced W) M (Unit {0}))
      → a.threads i ≡ t
      → IsSafe IsIdle t
      → IsIdle a.state.vcl
      → (rest : List ℕ) × Done i (interleave rest a)
  unfolding IsSafe
  finishes i (out p) a e h w =
      let l = finish idle_free i p a e h w in
      (
        l.0,
        subst (Done i) (sym l.2)
            ((_, (ended-Finished i p a _ refl).0), run_prog-keeps idle_free p a.state h w),
      )
  finishes i (inside q k) a e h w = absurd h

  joined :
      (i : ℕ) (first rest : List ℕ) (c a : System (Traced W) M (Unit {0}))
      → interleave first c ≡ a
      → Done i (interleave rest a)
      → Done i (interleave (first ++ rest) c)
  joined i first rest c a e d =
      subst (Done i) (sym (interleave-append first rest c ∙ ap (interleave rest) e)) d

  -- However many goroutines serve requests to the driver at once and in any order of their steps,
  -- from an idle client, any of them can from then on be brought to its end, with the client idle
  -- again.
  pub interleave-Finished :
      (requests : ℕ → Request) (schedule : List ℕ) (i : ℕ) (s : State (VcdClient (Traced W)) M)
      → IsIdle s.vcl
      → (rest : List ℕ) × Done i (interleave (schedule ++ rest) (begun requests s))
  interleave-Finished requests schedule i s h =
      let matched = interleave-whole_interleave requests schedule s in
      let a = whole_interleave matched.0 (begun requests s) in
      let sound = whole_interleave-Sound matched.0 _ (start-Sound requests s h) in
      let lead = (Sim-Leads matched.1).1 in
      let later = finishes i (a.threads i) a refl (sound.safe i) sound.well in
      (
        lead.0 ++ later.0,
        joined i schedule (lead.0 ++ later.0) (begun requests s) _ refl
            (joined i lead.0 later.0 _ a lead.2 later.1),
      )
