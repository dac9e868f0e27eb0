-- ===== src/Service/Listen/Interceptor.antt =====
-- The interceptor of pkg/controller/v1/cntrl.go against the handler that it calls.
use vcd_csi.Prelude.{String, List, ◌∷◌, ◌≡◌, arith}
use vcd_csi.Go.Error.{Error}
use vcd_csi.Go.Exec.{Outcome, returned, err, Exec, ◌>>=◌, zoom}
use vcd_csi.Service.Listen.{Logged, log_error, err_handler}

-- The log after a call.
abbrev pub noted : {A : Type 0} → String → Outcome A → List (String × Error) → List (String × Error)
noted method (returned (err e)) log = (method, e) ∷ log
noted method _ log = log

-- The interceptor answers as the handler does, leaves its state, and logs the failed methods.
pub err_handler_lem :
    {S A : Type 0} (method : String) (handler : Exec S A) (s : Logged S)
    → ((err_handler method handler s).0 ≡ (handler s.state).0)
      × ((err_handler method handler s).1.state ≡ (handler s.state).1)
      × ((err_handler method handler s).1.log ≡ noted method (handler s.state).0 s.log)
unfolding err_handler log_error ◌>>=◌ zoom
err_handler_lem method handler s = ground arith
