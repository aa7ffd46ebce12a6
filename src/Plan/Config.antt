-- ===== src/Plan/Config.antt =====
-- The configuration types: crates/vigil-types/src/plan/service.rs, check.rs, alert.rs, layer.rs and
-- mod.rs. Names and paths are strings, what the program parses is a text, an integer is a ℕ. `F` is
-- the type of floating-point numbers, of which there is one: the factor of the backoff.
use vigil_rs.Prelude.{ℕ, String, Bool, Option, List, Map, Text}

pub data Override : Type 0 where
  merge replace : Override

pub data Startup : Type 0 where
  disabled enabled : Startup

pub data LogsForward : Type 0 where
  forwarded internal passthrough : LogsForward

pub data LogsPushFormat : Type 0 where
  ndjson : LogsPushFormat

pub data OnExit : Type 0 where
  restart shutdown failure_shutdown success_shutdown ignore : OnExit

-- a POSIX signal by its number
abbrev pub Signal : Type 0
Signal = ℕ

pub record ServiceConfig (F : Type 0) : Type 0 where
  pub override_mode : Override
  pub summary : Option String
  pub description : Option String
  pub command : Option Text
  pub startup : Startup
  pub after : List String
  pub before : List String
  pub requires : List String
  pub environment : Map String
  pub user : Option String
  pub user_id : Option ℕ
  pub group : Option String
  pub group_id : Option ℕ
  pub working_dir : Option String
  pub stop_signal : Option Signal
  pub kill_delay : Option Text
  pub on_success : Option OnExit
  pub on_failure : Option OnExit
  pub on_check_failure : Map OnExit
  pub backoff_delay : Option Text
  pub backoff_factor : Option F
  pub backoff_limit : Option Text
  pub logs_forward : Option LogsForward
  pub logs_push_socket : Option String
  pub logs_push_addr : Option String
  pub logs_push_format : Option LogsPushFormat

pub data CheckLevel : Type 0 where
  alive ready : CheckLevel

pub record HttpCheck : Type 0 where
  pub url : String
  pub headers : Map String
  pub no_follow_redirects : Bool
  pub insecure : Bool
  pub insecure_proxy : Bool
  pub ca : Option String
  pub success_statuses : List ℕ

pub record TcpCheck : Type 0 where
  pub host : Option String
  pub port : ℕ

pub record ExecCheck : Type 0 where
  pub command : Text
  pub service_context : Option String
  pub environment : Map String
  pub user : Option String
  pub user_id : Option ℕ
  pub group : Option String
  pub group_id : Option ℕ
  pub working_dir : Option String

pub record CheckConfig : Type 0 where
  pub override_mode : Override
  pub level : CheckLevel
  pub startup : Startup
  pub delay : Option Text
  pub period : Option Text
  pub timeout : Option Text
  pub threshold : Option ℕ
  pub http : Option HttpCheck
  pub tcp : Option TcpCheck
  pub exec : Option ExecCheck

pub data AlertFormat : Type 0 where
  webhook alertmanager cloud_events otlp_logs : AlertFormat

pub record AlertConfig : Type 0 where
  pub override_mode : Override
  pub url : String
  pub format : AlertFormat
  pub headers : Map String
  pub labels : Map String
  pub send_info_fields : Map String
  pub on_check : List String
  pub tls_insecure : Bool
  pub tls_ca : Option String
  pub proxy : Option String
  pub proxy_ca : Option String
  pub no_proxy : Option String
  pub retry_attempts : Option ℕ
  pub retry_backoff : List Text
  pub body_template : Option String

pub record AlertsBlock : Type 0 where
  pub max_queue_depth : Option ℕ
  pub max_queue_time : Option Text
  pub entries : Map AlertConfig

pub record Layer (F : Type 0) : Type 0 where
  pub order : ℕ
  pub label : String
  pub summary : Option String
  pub description : Option String
  pub services : Map (ServiceConfig F)
  pub checks : Map CheckConfig
  pub alerts : AlertsBlock

-- the plan that the layers make together
pub record Plan (F : Type 0) : Type 0 where
  pub layers : List (Layer F)
  pub services : Map (ServiceConfig F)
  pub checks : Map CheckConfig
  pub alerts : Map AlertConfig
  pub alert_queue_depth : Option ℕ
  pub alert_max_queue_time : Option Text
