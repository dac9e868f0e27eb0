-- ===== src/Vcd/State.antt =====
-- The client's state and its mutex, the calls of the cloud, and the authentication that each method
-- begins with (`VcdClient`, `buildClients`, `refreshAuth`).
pub mod Laws
pub mod Returns
use vcd_csi.Prelude.{String, List, [], ◌∷◌, Bool, true, false, eqb, if◌then◌else◌}
use vcd_csi.Prelude.Dict.{Dict, insert}
use vcd_csi.Go.Exec.{
  Result, Outcome, returned, panicked, blocked, Exec, ok, err, pure, raise, ◌>>=◌, ◌>>◌,
}
use vcd_csi.Go.Error.{errorf, cause, end}
use vcd_csi.Config.{ControllerConfig}
use vcd_csi.Cloud.{Cloud, Handle}

-- `VcdClients` and `mt`, with the cloud that the client's calls reach.
pub record VcdClient (W : Type 0) : Type 0 where
  pub locked : Bool
  pub vdc_clients : Dict Handle
  pub cloud : W

module _ {W A : Type 0} where
  -- A call of the library, which reaches the cloud alone.
  unfoldable pub call : (W → Result A × W) → Exec (VcdClient W) A
  call f s = let (r, w) = f s.cloud in (returned r, record s { cloud = w })

  -- The deferred `Unlock` runs when the call returns and when it panics.
  unfoldable pub unlock : Outcome A × VcdClient W → Outcome A × VcdClient W
  unlock (returned r, s) = (returned r, record s { locked = false })
  unlock (panicked, s) = (panicked, record s { locked = false })
  unlock (blocked, s) = (blocked, s)

  -- `v.mt.Lock(); defer v.mt.Unlock()`
  unfoldable pub with_mutex : Exec (VcdClient W) A → Exec (VcdClient W) A
  with_mutex m s = if s.locked then (blocked, s) else unlock (m (record s { locked = true }))

module _ {W : Type 0} (cloud : Cloud W) (c : ControllerConfig) where
  unfoldable pub set_client : String → Handle → Exec (VcdClient W) (Unit {0})
  set_client name vdc s = pure tt (record s { vdc_clients = insert name vdc s.vdc_clients })

  -- The loop over `v.c.Vdcs`.
  unfoldable pub add_clients : Handle → List String → Exec (VcdClient W) (Unit {0})
  add_clients org [] = pure tt
  add_clients org (vdc_name ∷ rest) = do
    vdc ← call (cloud.get_vdc_by_name org vdc_name true)
    set_client vdc_name vdc
    add_clients org rest

  unfoldable pub build_clients : Exec (VcdClient W) (Unit {0})
  build_clients = do
    call (cloud.authenticate c.cloud_credentials)
    org ← call (cloud.get_org c.cloud_credentials.org)
    add_clients org c.vdcs

  unfoldable pub refresh_auth : Exec (VcdClient W) (Unit {0})
  refresh_auth = do
    status_code ← call (cloud.get_auth_response c.cloud_credentials)
    if eqb status_code 401 then build_clients else pure tt

  -- The address, and then the authentication. `parse_request_uri` is `url.ParseRequestURI`; the
  -- library gets the address with the credentials.
  unfoldable pub connect : {Url : Type 0} → (String → Result Url) → Exec (VcdClient W) (Unit {0})
  connect parse_request_uri = elim (parse_request_uri c.cloud_credentials.href) [
    | err e ↦ raise (errorf "unable to pass url: %s" (cause e end))
    | ok url ↦ build_clients
  ]

  -- `NewVcdClient`
  unfoldable pub new_vcd_client :
      {Url : Type 0} → (String → Result Url) → W → Outcome (Unit {0}) × VcdClient W
  new_vcd_client parse_request_uri w =
      connect parse_request_uri (record { locked = false; vdc_clients = []; cloud = w })
