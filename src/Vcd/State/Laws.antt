-- ===== src/Vcd/State/Laws.antt =====
-- The table of clients after an authentication.
use vcd_csi.Prelude.{String, List, [], ◌∷◌, none, ◌≡◌, ◌≢◌, ℕ, arith, eq_refl, All}
use vcd_csi.Prelude.Dict.{Dict, lookup, lookup-insert}
use vcd_csi.Go.Error.{Error}
use vcd_csi.Go.Exec.{raise, Result, ok, err, Outcome, returned, panicked, blocked, ◌>>=◌}
use vcd_csi.Go.Exec.Ensures.{Post, Ensures, Ensures-pure, Ensures-bind, Ensures-raise}
use vcd_csi.Config.{ControllerConfig}
use vcd_csi.Cloud.{Cloud, Handle}
use vcd_csi.Vcd.State.{
  VcdClient, call, set_client, add_clients, build_clients, connect, new_vcd_client,
}

-- The table has a client for the data centre.
abbrev pub Serves : Dict Handle → String → Type 0
Serves clients name = lookup name clients ≢ none

abbrev pub Nothing : {S : Type 0} → S → Type 0
Nothing s = Unit

module _ {W A : Type 0} where
  call-Ensures :
      (P : Dict Handle → Type 0) (f : W → Result A × W)
      → Ensures (λ s. P s.vdc_clients) (call f) (λ _ s. P s.vdc_clients) Nothing
  unfolding call
  call-Ensures P f = record { at = λ s p. ground arith }

module _ {S A : Type 0} (Q R : A → S → Type 0) where
  Post-both :
      (o : Outcome A) (s : S)
      → Post Q Nothing o s
      → Post R Nothing o s
      → Post (λ a s. Q a s × R a s) Nothing o s
  Post-both (returned (ok a)) s q r = (q, r)
  Post-both (returned (err e)) s q r = tt
  Post-both panicked s q r = tt
  Post-both blocked s q r = q

module _ {W : Type 0} (cloud : Cloud W) (c : ControllerConfig) where
  set_client-Serves :
      (name n : String) (vdc : Handle)
      → Ensures {S = VcdClient W}
          (λ s. Serves s.vdc_clients name)
          (set_client cloud c n vdc)
          (λ _ s. Serves s.vdc_clients name)
          Nothing
  unfolding set_client ◌>>=◌
  set_client-Serves name n vdc = record {
    at = λ s p. ground (arith, lookup-insert n name vdc s.vdc_clients);
  }

  set_client-new :
      (n : String) (vdc : Handle)
      → Ensures {S = VcdClient W} Nothing
          (set_client cloud c n vdc)
          (λ _ s. Serves s.vdc_clients n)
          Nothing
  unfolding set_client ◌>>=◌
  set_client-new n vdc = record {
    at = λ s p. ground (arith, eq_refl n, lookup-insert n n vdc s.vdc_clients);
  }

  add_clients-keeps :
      (org : Handle) (names : List String) (name : String)
      → Ensures
          (λ s. Serves s.vdc_clients name)
          (add_clients cloud c org names)
          (λ _ s. Serves s.vdc_clients name)
          Nothing
  unfolding add_clients
  add_clients-keeps org [] name = Ensures-pure tt (λ s p. p)
  add_clients-keeps org (n ∷ names) name =
      Ensures-bind _ (call-Ensures (λ t. Serves t name) _)
        λ vdc. Ensures-bind _ (set_client-Serves name n vdc) λ _. add_clients-keeps org names name

  add_clients-All :
      (org : Handle) (names : List String)
      → Ensures Nothing
          (add_clients cloud c org names)
          (λ _ s. All (Serves s.vdc_clients) names)
          Nothing
  unfolding add_clients
  add_clients-All org [] = Ensures-pure tt (λ s p. tt)
  add_clients-All org (n ∷ names) = Ensures-bind _ (call-Ensures (λ t. Unit) _) λ vdc.
      Ensures-bind _ (set_client-new n vdc) λ _. record {
        at = λ s p.
            Post-both (λ _ s. Serves s.vdc_clients n) (λ _ s. All (Serves s.vdc_clients) names) _ _
              ((add_clients-keeps org names n).at s p) ((add_clients-All org names).at s tt);
      }

  build_clients-Ensures :
      Ensures Nothing (build_clients cloud c) (λ _ s. All (Serves s.vdc_clients) c.vdcs) Nothing
  unfolding build_clients
  build_clients-Ensures =
      Ensures-bind _ (call-Ensures (λ t. Unit) _)
        λ _. Ensures-bind _ (call-Ensures (λ t. Unit) _) λ org. add_clients-All org c.vdcs

  Ensures-parsed :
      {Url : Type 0} (url : Result Url) (f : Error → Error)
      → Ensures Nothing
          (elim url [ err e ↦ raise (f e) | ok u ↦ build_clients cloud c ])
          (λ _ s. All (Serves s.vdc_clients) c.vdcs)
          Nothing
  Ensures-parsed (ok u) f = build_clients-Ensures
  Ensures-parsed (err e) f = Ensures-raise _ (λ s p. tt)

  -- A new client has each data centre, unless its construction failed.
  pub new_vcd_client-Serves :
      {Url : Type 0} (parse_request_uri : String → Result Url) (w : W)
      → Post
          (λ _ t. All (Serves t.vdc_clients) c.vdcs)
          Nothing
          (new_vcd_client cloud c parse_request_uri w).0
          (new_vcd_client cloud c parse_request_uri w).1
  unfolding new_vcd_client connect
  new_vcd_client-Serves parse_request_uri w =
      (Ensures-parsed (parse_request_uri c.cloud_credentials.href) _).at _ tt

  -- What a refresh makes of the cloud's answer to the authentication it has.
  abbrev pub Refreshed : VcdClient W → Result ℕ × W → Outcome (Unit {0}) → VcdClient W → Type 0
  Refreshed s (err e, w) o t = (o ≡ returned (err e)) × (t ≡ record s { cloud = w })
  Refreshed s (ok code, w) o t =
      (code ≡ 401 → Post (λ _ t. All (Serves t.vdc_clients) c.vdcs) Nothing o t)
      × (code ≢ 401 → (o ≡ returned (ok tt)) × (t ≡ record s { cloud = w }))
