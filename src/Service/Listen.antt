-- ===== src/Service/Listen.antt =====
-- `CsiController.Run` of pkg/controller/v1/cntrl.go, up to its servers: the addresses and the listeners,
-- and the interceptor of the remote calls.
pub mod Laws
pub mod Interceptor
use vcd_csi.Prelude.{String, List, ◌∷◌, Bool, Option, none, some, ◌==◌, if◌then◌else◌}
use vcd_csi.Go.Error.{Error, errorf, text, cause, end}
use vcd_csi.Go.Exec.{Result, ok, err, returned, Exec, pure, raise, attempt, ◌>>=◌, ◌>>◌, zoom}
use vcd_csi.Service.Start.{CsiController}

-- `url.URL`, as far as it is read
pub record Url : Type 0 where
  pub scheme : String
  pub host : String
  pub path : String

-- The functions of Go's library that `Run` calls, over a state of the operating system.
pub record System (O Listener : Type 0) : Type 0 where
  pub parse : String → Result Url
  pub join : String → String → String
  pub from_slash : String → String
  pub remove : String → O → Result (Unit {0}) × O
  pub is_not_exist : Error → Bool
  pub listen : String → String → O → Result Listener × O

module _ {O Listener : Type 0} (os : System O Listener) where
  unfoldable pub grpc_addr : Url → String
  grpc_addr u = if u.host == "" then os.from_slash u.path else os.join u.host (os.from_slash u.path)

  unfoldable pub parse_socket : CsiController → Exec O Url
  parse_socket cs = elim (os.parse cs.c.unix_socket) [
    | ok u ↦ pure u
    | err e ↦ raise (errorf "bad unix socket: %s" (cause e end))
  ]

  unfoldable pub remove_result : String → Result (Unit {0}) → Exec O (Unit {0})
  remove_result addr (ok u) = pure tt
  remove_result addr (err e) =
      if os.is_not_exist e
      then pure tt
      else raise (
          errorf "failed to remove unix domain socket file %s, error: %s" (text addr (cause e end)))

  unfoldable pub remove_socket : String → Exec O (Unit {0})
  remove_socket addr o = let (r, o') = os.remove addr o in remove_result addr r o'

  unfoldable pub listen_result : Result Listener → Exec O Listener
  listen_result (ok l) = pure l
  listen_result (err e) = raise (errorf "failed to listen: %v" (cause e end))

  unfoldable pub listen_on : String → String → Exec O Listener
  listen_on network addr o = let (r, o') = os.listen network addr o in listen_result r o'

  -- The listeners of the two servers.
  unfoldable pub open_listeners : CsiController → Exec O (Listener × Listener)
  open_listeners cs = do
    u ← parse_socket cs
    remove_socket (grpc_addr u)
    grpc ← listen_on u.scheme (grpc_addr u)
    http ← listen_on "tcp" cs.c.http_listen
    pure (grpc, http)

-- The state of a handler and the log of the failed methods.
pub record Logged (S : Type 0) : Type 0 where
  pub log : List (String × Error)
  pub state : S

unfoldable pub log_error : {S : Type 0} → String → Error → Exec (Logged S) (Unit {0})
log_error method e s = pure tt (record s { log = (method, e) ∷ s.log })

module _ {S A : Type 0} where
  -- `errHandler`
  unfoldable pub err_handler : String → Exec S A → Exec (Logged S) A
  err_handler method handler = do
    resp ← attempt (zoom (λ s. s.state) (λ t s. record s { state = t }) handler)
    elim resp [ ok a ↦ pure a | err e ↦ do log_error method e; raise e ]
