-- ===== src/Relay/Cli.antt =====
-- `Cli` of crates/vigil-log-relay/src/cli.rs, a record for each of its headings, and the values where nothing is given. The parser of
-- arguments and the conflicts that it refuses are the library's.
use vigil_rs.Prelude.{ℕ, Bool, false, Option, none, List, [], String}

pub record SourceArgs : Type 0 where
  pub kubernetes : Bool
  pub source_url : Option String
  pub source_socket : Option String
  pub source_path : String

pub record ConnectionArgs : Type 0 where
  pub source_connect_timeout : ℕ
  pub source_read_timeout : ℕ
  pub source_idle_timeout : ℕ
  pub source_keepalive_interval : ℕ
  pub source_keepalive_timeout : ℕ
  pub source_insecure : Bool
  pub source_cacert : Option String
  pub source_proxy : Option String
  pub source_proxy_insecure : Bool
  pub source_proxy_cacert : Option String
  pub source_no_proxy : Option String

pub record ReconnectArgs : Type 0 where
  pub source_reconnect_delay : ℕ
  pub source_reconnect_max : ℕ
  pub source_reconnect_retries : ℕ

-- The counts of lines and seconds are signed in the source, which tests only if they are positive.
pub record KubernetesArgs : Type 0 where
  pub namespace : String
  pub pod_selector : String
  pub watch_interval : ℕ
  pub container : Option String
  pub tail_lines : ℕ
  pub since_seconds : ℕ
  pub exclude_pod : List String
  pub max_log_requests : ℕ
  pub no_stream_param : Bool

pub record FilterArgs : Type 0 where
  pub include : List String
  pub exclude : List String

pub record SinkArgs : Type 0 where
  pub stdout_sink : Bool
  pub tcp_sink_host : String
  pub tcp_sink_port : ℕ

pub record DestArgs : Type 0 where
  pub dest_connect_timeout : ℕ
  pub dest_read_timeout : ℕ
  pub dest_idle_timeout : ℕ
  pub dest_keepalive_interval : ℕ
  pub dest_keepalive_timeout : ℕ
  pub dest_reconnect_delay : ℕ
  pub dest_reconnect_max : ℕ

pub record HealthArgs : Type 0 where
  pub healthcheck : String
  pub healthcheck_max_age : ℕ

pub record LogArgs : Type 0 where
  pub log_format : String
  pub debug : Bool

pub record Cli : Type 0 where
  pub source : SourceArgs
  pub connection : ConnectionArgs
  pub reconnect : ReconnectArgs
  pub kubernetes : KubernetesArgs
  pub filter : FilterArgs
  pub sink : SinkArgs
  pub dest : DestArgs
  pub health : HealthArgs
  pub log : LogArgs

abbrev pub default_source : SourceArgs
default_source = record {
  kubernetes = false;
  source_url = none;
  source_socket = none;
  source_path = "/v1/logs/follow?format=ndjson";
}

abbrev pub default_connection : ConnectionArgs
default_connection = record {
  source_connect_timeout = 10_000;
  source_read_timeout = 0;
  source_idle_timeout = 0;
  source_keepalive_interval = 0;
  source_keepalive_timeout = 0;
  source_insecure = false;
  source_cacert = none;
  source_proxy = none;
  source_proxy_insecure = false;
  source_proxy_cacert = none;
  source_no_proxy = none;
}

abbrev pub default_reconnect : ReconnectArgs
default_reconnect = record {
  source_reconnect_delay = 500;
  source_reconnect_max = 30_000;
  source_reconnect_retries = 0;
}

abbrev pub default_kubernetes : KubernetesArgs
default_kubernetes = record {
  namespace = "default";
  pod_selector = "";
  watch_interval = 10;
  container = none;
  tail_lines = 0;
  since_seconds = 10;
  exclude_pod = [];
  max_log_requests = 0;
  no_stream_param = false;
}

abbrev pub default_filter : FilterArgs
default_filter = record { include = []; exclude = [] }

abbrev pub default_sink : SinkArgs
default_sink = record { stdout_sink = false; tcp_sink_host = "127.0.0.1"; tcp_sink_port = 5_170 }

abbrev pub default_dest : DestArgs
default_dest = record {
  dest_connect_timeout = 10_000;
  dest_read_timeout = 0;
  dest_idle_timeout = 0;
  dest_keepalive_interval = 0;
  dest_keepalive_timeout = 0;
  dest_reconnect_delay = 500;
  dest_reconnect_max = 30_000;
}

abbrev pub default_health : HealthArgs
default_health = record { healthcheck = "127.0.0.1:9091"; healthcheck_max_age = 30 }

abbrev pub default_log : LogArgs
default_log = record { log_format = "text"; debug = false }

abbrev pub default_cli : Cli
default_cli = record {
  source = default_source;
  connection = default_connection;
  reconnect = default_reconnect;
  kubernetes = default_kubernetes;
  filter = default_filter;
  sink = default_sink;
  dest = default_dest;
  health = default_health;
  log = default_log;
}
