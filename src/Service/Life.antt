-- ===== src/Service/Life.antt =====
-- The goroutines of `main` (cmd/provisioner/main.go) and of `CsiController.Run`
-- (pkg/controller/v1/cntrl.go): one step for each thing that one of them does. When a server fails, and
-- when a handler panics, is open.
pub mod Laws
pub mod End
use vcd_csi.Prelude.{ℕ, ◌-◌, Bool, true, false, List, [], ◌∷◌, ◌≡◌, ◌⊎◌, Option, none, some}
use vcd_csi.Go.Error.{Error}

-- The functions of `eg`, which of them have returned, and what, newest first; whether
-- `httpSrv.Shutdown` has begun, which closes the listeners of the HTTP server; and whether
-- `srv.GracefulStop` has been called.
pub record Group : Type 0 where
  pub closed : Bool
  pub stopped : Bool
  pub shut : Bool
  pub grpc : Bool
  pub http : Bool
  pub results : List (Option Error)

-- The goroutine that calls `Run`. `starting` is before the servers are started; once `Run` has
-- returned, `cs.wg.Done()` has run.
pub data Runner : Type 0 where
  starting : Runner
  serving : Group → Runner
  returned : Option Error → Runner
  ended : Runner

-- `main`: before `<-out`, before `wg.Wait()` returns, and at its end.
pub data Main : Type 0 where
  listening : Main
  stopping : Main
  finished : Main

-- `crashed` is a process that a panic has ended.
pub record Life : Type 0 where
  pub main : Main
  pub cancelled : Bool
  pub pending : ℕ  -- `wg`
  pub runner : Runner
  pub crashed : Bool

-- `wg.Add(1)` and the `go` statement.
abbrev pub launched : Life
launched = record {
  main = listening;
  cancelled = false;
  pending = 1;
  runner = starting;
  crashed = false;
}

abbrev pub no_results : Group
no_results = record {
  closed = false;
  stopped = false;
  shut = false;
  grpc = false;
  http = false;
  results = [];
}

-- What `httpSrv.Serve` returns: `http.ErrServerClosed`, or another error.
pub data HttpEnd : Type 0 where
  server_closed : HttpEnd
  broken : Error → HttpEnd

unfoldable pub http_result : HttpEnd → Option Error
http_result server_closed = none
http_result (broken e) = some e

-- `Run` returns: its deferred call runs first.
unfoldable pub return_run : Option Error → Life → Life
return_run e l = record l { runner = returned e; pending = l.pending - 1 }

-- What one call of `eg.Go` adds to the results.
abbrev pub result : Option Error → Group → Group
result e g = record g { results = e ∷ g.results }

-- One step of the shutdown and of what leads to it. `wait` is what `eg.Wait()` makes of the results
-- (golang.org/x/sync/errgroup): it returns when all functions have.
pub data Step (wait : List (Option Error) → Option Error) (l l' : Life) : Type 0 where
  -- A signal arrives, and `main` cancels the context.
  signal : l.main ≡ listening → l' ≡ record l { main = stopping; cancelled = true } → Step wait l l'
  -- `Run` fails before it serves.
  refuse : (e : Error) → l.runner ≡ starting → l' ≡ return_run (some e) l → Step wait l l'
  serve : l.runner ≡ starting → l' ≡ record l { runner = serving no_results } → Step wait l l'
  -- `<-ctx.Done()`, and `httpSrv.Shutdown` closes the listeners.
  close :
      (g : Group)
      → l.runner ≡ serving g
      → g.closed ≡ false
      → l.cancelled ≡ true
      → l' ≡ record l { runner = serving (record g { closed = true }) }
      → Step wait l l'
  -- `httpSrv.Shutdown` returns.
  shutdown :
      (g : Group) (e : Option Error)
      → l.runner ≡ serving g
      → g.closed ≡ true
      → g.shut ≡ false
      → l' ≡ record l { runner = serving (result e (record g { shut = true })) }
      → Step wait l l'
  -- `<-ctx.Done()` and `srv.GracefulStop()`
  graceful_stop :
      (g : Group)
      → l.runner ≡ serving g
      → g.stopped ≡ false
      → l.cancelled ≡ true
      → l' ≡ record l { runner = serving (record g { stopped = true }) }
      → Step wait l l'
  -- `srv.Serve(grpcListener)` returns nil, which it does only after `GracefulStop`.
  end_grpc :
      (g : Group)
      → l.runner ≡ serving g
      → g.stopped ≡ true
      → g.grpc ≡ false
      → l' ≡ record l { runner = serving (result none (record g { grpc = true })) }
      → Step wait l l'
  -- `httpSrv.Serve(httpListener)` returns, its listeners being closed.
  end_http :
      (g : Group)
      → l.runner ≡ serving g
      → g.closed ≡ true
      → g.http ≡ false
      → l' ≡ record l {
        runner = serving (result (http_result server_closed) (record g { http = true }));
      }
      → Step wait l l'
  -- `eg.Wait()` returns, and so does `Run`.
  join :
      (g : Group)
      → l.runner ≡ serving g
      → g.shut ≡ true
      → g.grpc ≡ true
      → g.http ≡ true
      → l' ≡ return_run (wait g.results) l
      → Step wait l l'
  -- `panic(err)`
  report :
      (e : Error) → l.runner ≡ returned (some e) → l' ≡ record l { crashed = true } → Step wait l l'
  leave : l.runner ≡ returned none → l' ≡ record l { runner = ended } → Step wait l l'
  -- `wg.Wait()` returns, and so does `main`.
  finish : l.main ≡ stopping → l.pending ≡ 0 → l' ≡ record l { main = finished } → Step wait l l'

-- What may go wrong at any time while the servers run: one of them fails, or a handler of the
-- driver panics, which nothing recovers.
pub data Mishap (l l' : Life) : Type 0 where
  fail_grpc :
      (g : Group) (e : Error)
      → l.runner ≡ serving g
      → g.grpc ≡ false
      → l' ≡ record l { runner = serving (result (some e) (record g { grpc = true })) }
      → Mishap l l'
  fail_http :
      (g : Group) (e : Error)
      → l.runner ≡ serving g
      → g.http ≡ false
      → l'
        ≡ record l { runner = serving (result (http_result (broken e)) (record g { http = true })) }
      → Mishap l l'
  handler_panic :
      (g : Group) → l.runner ≡ serving g → l' ≡ record l { crashed = true } → Mishap l l'

abbrev pub Move : (List (Option Error) → Option Error) → Life → Life → Type 0
Move wait l l' = Step wait l l' ⊎ Mishap l l'

-- `main` has not returned.
abbrev pub IsOpen : Main → Type 0
IsOpen finished = ⊥
IsOpen _ = Unit

-- A process that has ended takes no step.
pub data Reach (wait : List (Option Error) → Option Error) (l : Life) : Life → Type 0 where
  here : Reach wait l l
  next :
      {l' l'' : Life}
      → Reach wait l l'
      → l'.crashed ≡ false
      → IsOpen l'.main
      → Move wait l' l''
      → Reach wait l l''
