-- ===== src/Config.antt =====
-- conf/conf.go: the settings, how they are read, and the logger that they give.
use vcd_csi.Prelude.{String, List, Bool, true}
use vcd_csi.Go.Int.{ℤ}
use vcd_csi.Go.Exec.{Result, ok, err}

abbrev pub prefix_var : String
prefix_var = "VCSI"

pub record Credentials : Type 0 where
  pub user : String
  pub password : String
  pub org : String
  pub href : String
  pub insecure : Bool

pub record ControllerConfig : Type 0 where
  pub http_listen : String
  pub unix_socket : String
  pub controller_name : String
  pub node_name : String
  pub node_vdc : String
  pub vdcs : List String
  pub default_sub_bus_type : String
  pub default_bus_type : String
  pub default_bus_num : ℤ
  pub log_level : String
  pub cloud_credentials : Credentials

-- `process` is `envconfig.Process` (github.com/kelseyhightower/envconfig), which fills a new value
-- from the environment.
unfoldable pub new_controller_config : (String → Result ControllerConfig) → Result ControllerConfig
new_controller_config process = elim (process prefix_var) [ err e ↦ err e | ok c ↦ ok c ]

-- `*logrus.Entry`, as far as it is set up
pub record Logger (Level : Type 0) : Type 0 where
  pub level : Level
  pub report_caller : Bool

-- `parse_level` is `logrus.ParseLevel`, and `info` is `logrus.InfoLevel`.
unfoldable pub get_logger :
    {Level : Type 0} → (String → Result Level) → Level → ControllerConfig → Logger Level
get_logger parse_level info cc = record {
  level = elim (parse_level cc.log_level) [ err e ↦ info | ok level ↦ level ];
  report_caller = true;
}
