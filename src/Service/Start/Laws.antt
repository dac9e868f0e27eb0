-- ===== src/Service/Start/Laws.antt =====
-- What `main` of cmd/provisioner/main.go makes before it starts its goroutine.
use vcd_csi.Prelude.{[], ◌≡◌, refl, false, All}
use vcd_csi.Go.Error.{Error}
use vcd_csi.Go.Exec.{Result, ok, err, Outcome, returned, panicked, blocked}
use vcd_csi.Go.Exec.Returns.{IsReturned}
use vcd_csi.Go.Exec.Ensures.{Post}
use vcd_csi.Config.{ControllerConfig, prefix_var, new_controller_config}
use vcd_csi.Cloud.{Cloud}
use vcd_csi.Vcd.State.{VcdClient, new_vcd_client}
use vcd_csi.Vcd.State.Laws.{Serves, new_vcd_client-Serves}
use vcd_csi.Vcd.State.Returns.{Logs, new_vcd_client-Returns}
use vcd_csi.Vcd.Service.{Visit}
use vcd_csi.Mount.Host.{Host}
use vcd_csi.Driver.State.{new_csi_driver}
use vcd_csi.Locker.{new_simple_lock}
use vcd_csi.Service.Start.{
  Outside, Service, Launch, crashed, exited, hung, started, new_csi_controller, assemble,
  with_client, launch,
}

-- The client is free and has each data centre, nothing waits for a resize, and the driver bears the
-- name and the node of the configuration, and no version.
pub record IsReady {W H Level : Type 0} (s : Service W H Level) : Type 0 where
  free : s.state.vcl.locked ≡ false
  served : All (Serves s.state.vcl.vdc_clients) s.controller.c.vdcs
  unlocked : s.state.lock.storage ≡ []
  named : s.controller.drv.name ≡ s.controller.c.controller_name
  placed : s.controller.drv.node_id ≡ s.controller.c.node_name
  unversioned : s.controller.drv.version ≡ ""

module _ {W H Url Level : Type 0} (cloud : Cloud W) (host : Host H) (visit : Visit)
    (outside : Outside Url Level) where
  -- How `main` can end up, by the configuration that it read.
  abbrev pub IsWired : Launch W H Level → Type 0
  IsWired crashed = (e : Error) × (outside.process prefix_var ≡ err e)
  IsWired (exited status) =
      (c : ControllerConfig) × (outside.process prefix_var ≡ ok c) × (status ≡ 1)
  IsWired hung = ⊥
  IsWired (started s) = (outside.process prefix_var ≡ ok s.controller.c) × IsReady s

  with_client-IsWired :
      (c : ControllerConfig) (h : H) (o : Outcome (Unit {0})) (client : VcdClient W)
      → outside.process prefix_var ≡ ok c
      → IsReturned o
      → client.locked ≡ false
      → Post (λ _ t. All (Serves t.vdc_clients) c.vdcs) (λ t. Unit) o client
      → IsWired (with_client cloud host visit outside c h (o, client))
  unfolding with_client assemble new_csi_controller new_csi_driver new_simple_lock
  with_client-IsWired c h (returned (ok u)) client e r free served = (
    e,
    record {
      free = free;
      served = served;
      unlocked = refl;
      named = refl;
      placed = refl;
      unversioned = refl;
    },
  )
  with_client-IsWired c h (returned (err x)) client e r free served = (c, e, refl)
  with_client-IsWired c h panicked client e r free served = absurd r
  with_client-IsWired c h blocked client e r free served = absurd r

  configured :
      (r : Result ControllerConfig) (w : W) (h : H)
      → outside.process prefix_var ≡ r
      → IsWired (elim r [
        | err e ↦ crashed
        | ok c ↦
            with_client cloud host visit outside c h
              (new_vcd_client cloud c outside.parse_request_uri w)
      ])
  configured (err x) w h e = (x, e)
  configured (ok c) w h e =
      let r = new_vcd_client-Returns (λ w. Unit) cloud c trivial outside.parse_request_uri w tt in
      with_client-IsWired c h _ _ e r.0 r.1.0
        (new_vcd_client-Serves cloud c outside.parse_request_uri w)
    where
      trivial : Logs (λ w. Unit) cloud c
      trivial = record { enters = λ w p. tt; orgs = λ o w p. tt; vdcs = λ o n w p. tt }

  unchanged : {A : Type 0} (r : Result A) → r ≡ elim r [ err e ↦ err e | ok a ↦ ok a ]
  unchanged (ok a) = refl
  unchanged (err e) = refl

  -- The construction in `main` does not hang, it panics only if the configuration cannot be read,
  -- and it exits only with the status 1 and after the configuration was read; a service that is
  -- started has the configuration that was read, a free client with each configured data centre,
  -- an empty lock, and a driver with the configured name and node and an empty version.
  pub launch-IsWired : (w : W) (h : H) → IsWired (launch cloud host visit outside w h)
  unfolding launch new_controller_config
  launch-IsWired w h =
      configured (new_controller_config outside.process) w h
        (unchanged (outside.process prefix_var))
