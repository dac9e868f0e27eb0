-- ===== src/Service/Server/Laws.antt =====
-- The gRPC server of pkg/controller/v1/cntrl.go against the driver's methods without the interceptor.
use mathlib.Core.Path.{subst}
use vcd_csi.Prelude.{String, List, [], ◌∷◌, ◌≡◌, refl, sym, ap, ◌∙◌}
use vcd_csi.Go.Error.{Error}
use vcd_csi.Go.Exec.{Outcome, returned, panicked, blocked}
use vcd_csi.Driver.State.{VcdService, Mounter, CsiDriver, State}
use vcd_csi.Driver.Capabilities.{StringSets}
use vcd_csi.Service.Listen.{Logged}
use vcd_csi.Service.Listen.Interceptor.{noted, err_handler_lem}
use vcd_csi.Service.Server.{Call, Reply, after_call, registered, handle, serve_grpc}

-- The failed methods, newest first, before an older log.
unfoldable pub failures :
    (Call → String)
    → List (Outcome Reply)
    → List Call
    → List (String × Error)
    → List (String × Error)
failures full_method [] calls log = log
failures full_method (o ∷ answers) [] log = log
failures full_method (o ∷ answers) (call ∷ calls) log =
    failures full_method answers calls (noted (full_method call) o log)

module _ {S M Set : Type 0} (vcl : VcdService S) (sets : StringSets Set) (m : Mounter M)
    (drv : CsiDriver) where
  -- The driver's methods alone, up to a call that does not return.
  unfoldable pub serve_driver : List Call → State S M → List (Outcome Reply) × State S M
  serve_driver [] s = ([], s)
  serve_driver (call ∷ calls) s =
      let (o, s') = registered vcl sets m drv call s in after_call o s' (serve_driver calls s')

  module _ (full_method : Call → String) where
    abbrev pub Agrees :
        List Call
        → List (String × Error)
        → List (Outcome Reply) × Logged (State S M)
        → List (Outcome Reply) × State S M
        → Type 0
    Agrees calls log r p =
        (r.0 ≡ p.0) × (r.1.state ≡ p.1) × (r.1.log ≡ failures full_method p.0 calls log)

    next-Agrees :
        (call : Call) (calls : List Call) (log : List (String × Error)) (o : Outcome Reply)
        (s : Logged (State S M)) (later : List (Outcome Reply) × Logged (State S M))
        (p : List (Outcome Reply) × State S M)
        → s.log ≡ noted (full_method call) o log
        → Agrees calls s.log later p
        → Agrees (call ∷ calls) log (after_call o s later) (after_call o s.state p)
    unfolding failures
    next-Agrees call calls log (returned r) s later p e h =
        (ap (λ t. returned r ∷ t) h.0, h.1, h.2 ∙ ap (λ l. failures full_method p.0 calls l) e)
    next-Agrees call calls log panicked s later p e h = (refl, refl, e)
    next-Agrees call calls log blocked s later p e h = (refl, refl, e)

    -- The server answers any calls of the three services, one after the other, as the driver's
    -- methods without the interceptor do, up to a panic or a call that does not return, leaves the
    -- state that they leave, and has logged the methods that failed, in their order and with their
    -- errors.
    pub serve_grpc-serve_driver :
        (calls : List Call) (s : Logged (State S M))
        → Agrees calls s.log
            (serve_grpc vcl sets m drv full_method calls s)
            (serve_driver calls s.state)
    unfolding serve_grpc serve_driver failures handle
    serve_grpc-serve_driver [] s = (refl, refl, refl)
    serve_grpc-serve_driver (call ∷ calls) s =
        let h = err_handler_lem (full_method call) (registered vcl sets m drv call) s in
        subst
          (λ o.
            Agrees (call ∷ calls) s.log (serve_grpc vcl sets m drv full_method (call ∷ calls) s) (
              after_call o (registered vcl sets m drv call s.state).1
                (serve_driver calls (registered vcl sets m drv call s.state).1)))
          h.0
          (subst
            (λ t.
              Agrees (call ∷ calls) s.log (serve_grpc vcl sets m drv full_method (call ∷ calls) s)
                (after_call (handle vcl sets m drv full_method call s).0 t (serve_driver calls t)))
            h.1
            (next-Agrees call calls s.log _ _ _ _
              (h.2 ∙ ap (λ o. noted (full_method call) o s.log) (sym h.0))
              (serve_grpc-serve_driver calls _)))
