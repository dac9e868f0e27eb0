-- ===== src/Service/Listen/Laws.antt =====
-- What `CsiController.Run` has asked of the operating system when it has its listeners, or fails.
use vcd_csi.Prelude.{String, List, [], ◌∷◌, ◌≡◌, refl, sym, ap, true, false, inl, inr, Bool-cases}
use mathlib.Core.Path.{subst}
use vcd_csi.Go.Error.{Error, errorf, cause, end}
use vcd_csi.Go.Exec.{Result, ok, err, pure, raise, ◌>>=◌}
use vcd_csi.Go.Exec.Ensures.{Ensures, Post, Ensures-pure, Ensures-raise, Ensures-bind}
use vcd_csi.Service.Start.{CsiController}
use vcd_csi.Service.Listen.{
  Url, System, grpc_addr, parse_socket, remove_result, remove_socket, listen_result, listen_on,
  open_listeners,
}

pub data Event (Listener : Type 0) : Type 0 where
  removed : String → Result (Unit {0}) → Event Listener
  bound : String → String → Result Listener → Event Listener

pub record Traced (O Listener : Type 0) : Type 0 where
  pub events : List (Event Listener)
  pub inner : O

-- A system that keeps a record of the calls, newest first.
abbrev pub traced : {O Listener : Type 0} → System O Listener → System (Traced O Listener) Listener
traced os = record {
  parse = os.parse;
  join = os.join;
  from_slash = os.from_slash;
  remove = λ addr t.
      let (r, o) = os.remove addr t.inner in
      (r, record { events = removed addr r ∷ t.events; inner = o });
  is_not_exist = os.is_not_exist;
  listen = λ network addr t.
      let (r, o) = os.listen network addr t.inner in
      (r, record { events = bound network addr r ∷ t.events; inner = o });
}

module _ {O Listener : Type 0} (os : System O Listener) (cs : CsiController) where
  -- The socket's file is gone.
  abbrev Cleared : Result (Unit {0}) → Type 0
  Cleared (ok u) = Unit
  Cleared (err e) = os.is_not_exist e ≡ true

  -- The last call before a failure is the one that failed.
  pub data Failed (events : List (Event Listener)) : Type 0 where
    unparsed : (e : Error) → os.parse cs.c.unix_socket ≡ err e → events ≡ [] → Failed events
    unremoved :
        (u : Url) (e : Error)
        → os.parse cs.c.unix_socket ≡ ok u
        → os.is_not_exist e ≡ false
        → events ≡ removed (grpc_addr os u) (err e) ∷ []
        → Failed events
    unbound :
        (u : Url) (r : Result (Unit {0})) (e : Error)
        → os.parse cs.c.unix_socket ≡ ok u
        → Cleared r
        → events ≡ bound u.scheme (grpc_addr os u) (err e) ∷ removed (grpc_addr os u) r ∷ []
        → Failed events
    unserved :
        (u : Url) (r : Result (Unit {0})) (grpc : Listener) (e : Error)
        → os.parse cs.c.unix_socket ≡ ok u
        → Cleared r
        → events
          ≡ bound "tcp" cs.c.http_listen (err e)
            ∷ bound u.scheme (grpc_addr os u) (ok grpc)
            ∷ removed (grpc_addr os u) r
            ∷ []
        → Failed events

  -- The calls that led to the two listeners.
  abbrev pub Opened : Listener × Listener → List (Event Listener) → Type 0
  Opened (grpc, http) events =
      (u : Url) × (r : Result (Unit {0})) × (os.parse cs.c.unix_socket ≡ ok u)
      × Cleared r
      × (events
          ≡ bound "tcp" cs.c.http_listen (ok http)
            ∷ bound u.scheme (grpc_addr os u) (ok grpc)
            ∷ removed (grpc_addr os u) r
            ∷ [])

  abbrev IsFailed : Traced O Listener → Type 0
  IsFailed s = Failed s.events

  parse_socket-Ensures :
      Ensures
        (λ s. s.events ≡ [])
        (parse_socket (traced os) cs)
        (λ u s. (os.parse cs.c.unix_socket ≡ ok u) × (s.events ≡ []))
        IsFailed
  unfolding parse_socket
  parse_socket-Ensures = parsed (os.parse cs.c.unix_socket) refl
    where
      parsed :
          (r : Result Url)
          → os.parse cs.c.unix_socket ≡ r
          → Ensures
              (λ s. s.events ≡ [])
              (elim r [
                | ok u ↦ pure u
                | err e ↦ raise (errorf "bad unix socket: %s" (cause e end))
              ])
              (λ u s. (os.parse cs.c.unix_socket ≡ ok u) × (s.events ≡ []))
              IsFailed
      parsed (ok u) h = Ensures-pure u (λ s p. (h, p))
      parsed (err e) h = Ensures-raise _ (λ s p. unparsed e h p)

  module _ (u : Url) (h : os.parse cs.c.unix_socket ≡ ok u) where
    remove_result-Post :
        (r : Result (Unit {0})) (s : Traced O Listener)
        → s.events ≡ removed (grpc_addr os u) r ∷ []
        → Post
            (λ _ s.
              (r : Result (Unit {0})) × Cleared r × (s.events ≡ removed (grpc_addr os u) r ∷ []))
            IsFailed
            (remove_result (traced os) (grpc_addr os u) r s).0
            (remove_result (traced os) (grpc_addr os u) r s).1
    unfolding remove_result ◌>>=◌
    remove_result-Post (ok x) s e = (ok x, tt, e)
    remove_result-Post (err x) s e = elim (Bool-cases (os.is_not_exist x)) [
      | inl t ↦ rw t (err x, t, e)
      | inr f ↦ rw f (unremoved u x h f e)
    ]

    remove_socket-Ensures :
        Ensures
          (λ s. s.events ≡ [])
          (remove_socket (traced os) (grpc_addr os u))
          (λ _ s.
            (r : Result (Unit {0})) × Cleared r × (s.events ≡ removed (grpc_addr os u) r ∷ []))
          IsFailed
    unfolding remove_socket
    remove_socket-Ensures = record {
      at = λ s p. remove_result-Post (os.remove (grpc_addr os u) s.inner).0 _ (rw p refl);
    }

  listen_result-Post :
      (network addr : String) (t : List (Event Listener))
      → ((e : Error) → Failed (bound network addr (err e) ∷ t))
      → (r : Result Listener) (s : Traced O Listener) → s.events ≡ bound network addr r ∷ t
      → Post
          (λ l s. s.events ≡ bound network addr (ok l) ∷ t)
          IsFailed
          (listen_result (traced os) r s).0
          (listen_result (traced os) r s).1
  unfolding listen_result ◌>>=◌
  listen_result-Post network addr t h (ok l) s e = e
  listen_result-Post network addr t h (err x) s e = subst Failed (sym e) (h x)

  listen_on-Ensures :
      (network addr : String) (t : List (Event Listener))
      → ((e : Error) → Failed (bound network addr (err e) ∷ t))
      → Ensures
          (λ s. s.events ≡ t)
          (listen_on (traced os) network addr)
          (λ l s. s.events ≡ bound network addr (ok l) ∷ t)
          IsFailed
  unfolding listen_on
  listen_on-Ensures network addr t h = record {
    at = λ s p.
        listen_result-Post network addr t h (os.listen network addr s.inner).0 _
          (ap (λ t. bound network addr (os.listen network addr s.inner).0 ∷ t) p);
  }

  -- After the file of the socket is gone.
  module _ (u : Url) (h : os.parse cs.c.unix_socket ≡ ok u) (r : Result (Unit {0}))
      (k : Cleared r) where
    listeners-Ensures :
        Ensures
          (λ s. s.events ≡ removed (grpc_addr os u) r ∷ [])
          (do
            grpc ← listen_on (traced os) u.scheme (grpc_addr os u)
            http ← listen_on (traced os) "tcp" cs.c.http_listen
            pure (grpc, http))
          (λ l s. Opened l s.events)
          IsFailed
    listeners-Ensures =
        Ensures-bind _ (listen_on-Ensures _ _ _ (λ e. unbound u r e h k refl)) λ grpc.
          Ensures-bind _ (listen_on-Ensures _ _ _ (λ e. unserved u r grpc e h k refl))
            λ http. Ensures-pure _ (λ s p. (u, r, h, k, p))

  open_listeners-Ensures :
      Ensures
        (λ s. s.events ≡ [])
        (open_listeners (traced os) cs)
        (λ l s. Opened l s.events)
        IsFailed
  unfolding open_listeners grpc_addr
  open_listeners-Ensures = Ensures-bind _ parse_socket-Ensures λ u. record {
    at = λ s p.
        (Ensures-bind _ (remove_socket-Ensures u p.0)
            λ _. record { at = λ s q. (listeners-Ensures u p.0 q.0 q.1).at s q.2 }).at
          s p.1;
  }

  -- If `Run` gets its listeners, then it parsed the socket's address, removed its file or was told
  -- that there is none, and bound the socket and then the configured address of the health check,
  -- in this order and nothing else; if it fails, the last of these that it did is the one that
  -- failed.
  pub open_listeners-Opened :
      (o : O)
      → Post
          (λ l s. Opened l s.events)
          IsFailed
          (open_listeners (traced os) cs (record { events = []; inner = o })).0
          (open_listeners (traced os) cs (record { events = []; inner = o })).1
  open_listeners-Opened o = open_listeners-Ensures.at _ refl
