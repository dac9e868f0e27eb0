-- ===== src/Service/Life/Laws.antt =====
-- How the service of cmd/provisioner/main.go and pkg/controller/v1/cntrl.go ends.
use vcd_csi.Prelude.{ℕ, ◌⊎◌, inl, inr, Bool, true, false, List, ◌≡◌, ◌≢◌, Option, arith}
use vcd_csi.Go.Error.{Error}
use vcd_csi.Service.Life.{
  Runner, starting, serving, returned, ended, listening, finished, Life, launched, return_run, Step,
  signal, refuse, serve, close, shutdown, graceful_stop, end_grpc, end_http, join, report, leave,
  finish, Mishap, fail_grpc, fail_http, handler_panic, Move, IsOpen, Reach, here, next,
}

-- The calls of `Run` that have not returned.
abbrev running : Runner → ℕ
running starting = 1
running (serving g) = 1
running (returned e) = 0
running ended = 0

-- The HTTP server is shut down only after its listeners are closed, and these only after the
-- context is cancelled.
abbrev IsOrderly : Bool → Runner → Type 0
IsOrderly cancelled (serving g) =
    (g.closed ≡ true → cancelled ≡ true) × (g.shut ≡ true → g.closed ≡ true)
IsOrderly cancelled _ = Unit

-- `Run` has returned.
abbrev pub HasReturned : Runner → Type 0
HasReturned (returned e) = Unit
HasReturned ended = Unit
HasReturned _ = ⊥

abbrev pub IsServing : Runner → Type 0
IsServing (serving g) = Unit
IsServing _ = ⊥

pub record Inv (l : Life) : Type 0 where
  pub counted : l.pending ≡ running l.runner
  pub orderly : IsOrderly l.cancelled l.runner
  pub signalled : l.main ≢ listening → l.cancelled ≡ true
  pub quiet : l.main ≡ listening → l.cancelled ≡ false
  pub joined : l.main ≡ finished → l.pending ≡ 0

module _ (wait : List (Option Error) → Option Error) where
  pub Step-Inv : {l l' : Life} → Step wait l l' → IsOpen l.main → Inv l → Inv l'
  unfolding return_run
  Step-Inv (signal m e) o h = ground arith
  Step-Inv (refuse x r e) o h = ground arith
  Step-Inv (serve r e) o h = ground arith
  Step-Inv (close g r u c e) o h = ground arith
  Step-Inv (shutdown g x r u v e) o h = ground arith
  Step-Inv (graceful_stop g r u c e) o h = ground arith
  Step-Inv (end_grpc g r u v e) o h = ground arith
  Step-Inv (end_http g r u v e) o h = ground arith
  Step-Inv (join g r u v w e) o h = ground arith
  Step-Inv (report x r e) o h = ground arith
  Step-Inv (leave r e) o h = ground arith
  Step-Inv (finish m p e) o h = ground arith

  Mishap-Inv : {l l' : Life} → Mishap l l' → Inv l → Inv l'
  Mishap-Inv (fail_grpc g x r u e) h = ground arith
  Mishap-Inv (fail_http g x r u e) h = ground arith
  Mishap-Inv (handler_panic g r e) h = ground arith

  pub Move-Inv : {l l' : Life} → Move wait l l' → IsOpen l.main → Inv l → Inv l'
  Move-Inv (inl step) o h = Step-Inv step o h
  Move-Inv (inr mishap) o h = Mishap-Inv mishap h

  pub Reach-Inv : {l : Life} → Reach wait launched l → Inv l
  Reach-Inv here = ground arith
  Reach-Inv (next r c o move) = Move-Inv move o (Reach-Inv r)

  returned_of_zero : (r : Runner) → running r ≡ 0 → HasReturned r
  returned_of_zero r h = ground arith

  -- When `main` has returned after its wait, the context was cancelled and `Run` has returned.
  pub Reach-finished :
      {l : Life}
      → Reach wait launched l
      → l.main ≡ finished
      → (l.cancelled ≡ true) × HasReturned l.runner
  Reach-finished {l} r m = ground (arith, Reach-Inv r, returned_of_zero l.runner)

  -- Not cancelled, and serving.
  abbrev Stays : Life → Type 0
  Stays l = (l.cancelled ≡ true) ⊎ IsServing l.runner

  Step-Stays : {l l' : Life} → Step wait l l' → Inv l → Stays l → Stays l'
  unfolding return_run
  Step-Stays (signal m e) h s = ground arith
  Step-Stays (refuse x r e) h s = ground arith
  Step-Stays (serve r e) h s = ground arith
  Step-Stays (close g r u c e) h s = ground arith
  Step-Stays (shutdown g x r u v e) h s = ground arith
  Step-Stays (graceful_stop g r u c e) h s = ground arith
  Step-Stays (end_grpc g r u v e) h s = ground arith
  Step-Stays (end_http g r u v e) h s = ground arith
  Step-Stays (join g r u v w e) h s = ground arith
  Step-Stays (report x r e) h s = ground arith
  Step-Stays (leave r e) h s = ground arith
  Step-Stays (finish m p e) h s = ground arith

  Mishap-Stays : {l l' : Life} → Mishap l l' → Stays l → Stays l'
  Mishap-Stays (fail_grpc g x r u e) s = ground arith
  Mishap-Stays (fail_http g x r u e) s = ground arith
  Mishap-Stays (handler_panic g r e) s = ground arith

  Move-Stays : {l l' : Life} → Move wait l l' → Inv l → Stays l → Stays l'
  Move-Stays (inl step) h s = Step-Stays step h s
  Move-Stays (inr mishap) h s = Mishap-Stays mishap s

  Reach-Stays : {l l' : Life} → Reach wait l l' → Inv l → Stays l → Inv l' × Stays l'
  Reach-Stays here h s = (h, s)
  Reach-Stays (next r c o move) h s =
      let k = Reach-Stays r h s in (Move-Inv move o k.0, Move-Stays move k.0 k.1)

  -- As long as the context is not cancelled, a `Run` that serves does not return and `main` goes
  -- on listening, whichever of its two servers has failed, and with whatever error, up to the
  -- panic of a handler that may end the process.
  pub Reach-IsServing :
      {l l' : Life}
      → Reach wait launched l
      → IsServing l.runner
      → Reach wait l l'
      → l'.cancelled ≡ false
      → IsServing l'.runner × (l'.main ≡ listening)
  Reach-IsServing {l} {l'} r s t c = ground (arith, Reach-Stays t (Reach-Inv r) (inr s))
