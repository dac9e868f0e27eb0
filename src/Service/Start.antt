-- ===== src/Service/Start.antt =====
-- `main` of cmd/provisioner/main.go, up to the start of its goroutine: the configuration, the client,
-- the lock, the mounter, the driver and the controller, each made from those before it.
pub mod Laws
use vcd_csi.Prelude.{ℕ, String}
use vcd_csi.Go.Exec.{Result, ok, err, Outcome, returned, panicked, blocked}
use vcd_csi.Config.{ControllerConfig, new_controller_config, Logger, get_logger}
use vcd_csi.Locker.{SimpleLock, new_simple_lock}
use vcd_csi.Cloud.{Cloud}
use vcd_csi.Vcd.State.{VcdClient, new_vcd_client}
use vcd_csi.Vcd.Service.{Visit}
use vcd_csi.Mount.Host.{Host}
use vcd_csi.Mount.Handler.{new_mounter}
use vcd_csi.Driver.State.{VcdService, Mounter, CsiDriver, new_csi_driver, State}
use vcd_csi.Driver.Client.{vcd_service}

-- The fields of `CsiController` that never change, but for the logger.
pub record CsiController : Type 0 where
  pub c : ControllerConfig
  pub drv : CsiDriver

unfoldable pub new_csi_controller : ControllerConfig → CsiDriver → CsiController
new_csi_controller c drv = record { c = c; drv = drv }

-- The functions of code outside the repository that `main` reaches: `envconfig.Process`,
-- `url.ParseRequestURI` and `logrus.ParseLevel` with `logrus.InfoLevel`.
pub record Outside (Url Level : Type 0) : Type 0 where
  pub process : String → Result ControllerConfig
  pub parse_request_uri : String → Result Url
  pub parse_level : String → Result Level
  pub info_level : Level

-- All that `main` has made: the logger, the controller with its driver, the two interfaces that the
-- driver calls, and the state behind them.
pub record Service (W H Level : Type 0) : Type 0 where
  pub logger : Logger Level
  pub controller : CsiController
  pub vcl : VcdService (VcdClient W)
  pub mounter : Mounter H
  pub state : State (VcdClient W) H

-- How the construction ends: a panic, `os.Exit` with a status, a wait that has no end, or a service.
pub data Launch (W H Level : Type 0) : Type 0 where
  crashed : Launch W H Level
  exited : ℕ → Launch W H Level
  hung : Launch W H Level
  started : Service W H Level → Launch W H Level

module _ {W H Url Level : Type 0} (cloud : Cloud W) (host : Host H) (visit : Visit)
    (outside : Outside Url Level) where
  unfoldable pub assemble : ControllerConfig → VcdClient W → H → Service W H Level
  assemble c client h = record {
    logger = get_logger outside.parse_level outside.info_level c;
    controller = new_csi_controller c (new_csi_driver c);
    vcl = vcd_service cloud c visit;
    mounter = new_mounter host;
    state = record { vcl = client; lock = new_simple_lock; host = h };
  }

  unfoldable pub with_client :
      ControllerConfig → H → Outcome (Unit {0}) × VcdClient W → Launch W H Level
  with_client c h (returned (ok u), client) = started (assemble c client h)
  with_client c h (returned (err e), client) = exited 1
  with_client c h (panicked, client) = crashed
  with_client c h (blocked, client) = hung

  unfoldable pub launch : W → H → Launch W H Level
  launch w h = elim (new_controller_config outside.process) [
    | err e ↦ crashed
    | ok c ↦ with_client c h (new_vcd_client cloud c outside.parse_request_uri w)
  ]
