-- ===== src/Vcd/State/Returns.antt =====
-- The authentication of the client returns, and touches neither the mutex nor the record of events.
use vcd_csi.Prelude.{String, List, [], ◌∷◌, ◌≡◌, refl, false, true}
use vcd_csi.Go.Exec.{Result, ◌>>=◌}
use vcd_csi.Go.Exec.Returns.{
  IsReturned, Returns, Returns-pure, Returns-raise, Returns-bind, Returns-result,
}
use vcd_csi.Config.{ControllerConfig}
use vcd_csi.Cloud.{Cloud, Handle}
use vcd_csi.Vcd.State.{
  VcdClient, call, set_client, add_clients, build_clients, connect, new_vcd_client,
}

-- What the calls of the library keep of the cloud, while the mutex is free.
abbrev pub Holds : {W : Type 0} → (W → Type 0) → VcdClient W → Type 0
Holds P s = (s.locked ≡ false) × P s.cloud

-- The calls of an authentication keep `P`.
pub record Logs {W : Type 0} (P : W → Type 0) (cloud : Cloud W) (c : ControllerConfig)
    : Type 0 where
  pub enters : (w : W) → P w → P (cloud.authenticate c.cloud_credentials w).1
  pub orgs : (org : String) (w : W) → P w → P (cloud.get_org org w).1
  pub vdcs :
      (org : Handle) (name : String) (w : W) → P w → P (cloud.get_vdc_by_name org name true w).1

module _ {W A : Type 0} (P : W → Type 0) where
  call-Returns : (f : W → Result A × W) → ((w : W) → P w → P (f w).1) → Returns (Holds P) (call f)
  unfolding call
  call-Returns f h = record { keeps = λ s p. (p.0, h s.cloud p.1); ends = λ s. tt }

module _ {W : Type 0} (P : W → Type 0) (cloud : Cloud W) (c : ControllerConfig)
    (h : Logs P cloud c) where
  set_client-Returns :
      (name : String) (vdc : Handle) → Returns (Holds P) (set_client cloud c name vdc)
  unfolding set_client ◌>>=◌
  set_client-Returns name vdc = record { keeps = λ s p. p; ends = λ s. tt }

  add_clients-Returns :
      (org : Handle) (names : List String) → Returns (Holds P) (add_clients cloud c org names)
  unfolding add_clients
  add_clients-Returns org [] = Returns-pure tt
  add_clients-Returns org (name ∷ names) =
      Returns-bind _ _ (call-Returns P _ (h.vdcs org name))
        λ vdc. Returns-bind _ _ (set_client-Returns name vdc) λ _. add_clients-Returns org names

  build_clients-Returns : Returns (Holds P) (build_clients cloud c)
  unfolding build_clients
  build_clients-Returns =
      Returns-bind _ _ (call-Returns P _ h.enters)
        λ _. Returns-bind _ _ (call-Returns P _ (h.orgs _)) λ org. add_clients-Returns org c.vdcs

  connect-Returns :
      {Url : Type 0} (parse_request_uri : String → Result Url)
      → Returns (Holds P) (connect cloud c parse_request_uri)
  unfolding connect
  connect-Returns parse_request_uri =
      Returns-result (parse_request_uri _) _ _ (λ e. Returns-raise _) (λ url. build_clients-Returns)

  pub new_vcd_client-Returns :
      {Url : Type 0} (parse_request_uri : String → Result Url) (w : W)
      → P w
      → IsReturned (new_vcd_client cloud c parse_request_uri w).0
        × Holds P (new_vcd_client cloud c parse_request_uri w).1
  unfolding new_vcd_client
  new_vcd_client-Returns parse_request_uri w p = (
    (connect-Returns parse_request_uri).ends _,
    (connect-Returns parse_request_uri).keeps _ (refl, p),
  )
