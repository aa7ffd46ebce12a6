-- ===== src/Relay/Main.antt =====
-- `main` of crates/vigil-log-relay/src/main.rs: the source that is read, and what is made of the arguments; `Liveness` of
-- healthcheck.rs; and the test of the API server's version of source_k8s/mod.rs. The set-up of logs,
-- signals and tasks is left out.
use vigil_rs.Prelude.{
  ℕ, ◌+◌, ◌-◌, Bool, true, false, ◌&&◌, ◌||◌, Option, none, some, List, [], ◌∷◌, ◌++◌, String, Text,
  Result, ok, err, is_digit, is_some, get_or, codes, ltb, leb, ◌==◌, if◌then◌else◌,
}
use vigil_rs.NoProxy.Strings.{parse_u32}
use vigil_rs.Relay.Cli.{Cli}
use vigil_rs.Relay.Sink.{SinkConfig}
use vigil_rs.Relay.Http.{ReconnectConfig, SourceConnConfig}

-- What `main` runs.
pub data Mode : Type 0 where
  kubernetes : Mode
  url socket : String → Mode

pub data NoSource : Type 0 where
  no_source : NoSource

abbrev pub one_if : Bool → ℕ
one_if b = if b then 1 else 0

unfoldable pub source_count : Cli → ℕ
source_count cli =
    one_if cli.source.kubernetes
    + one_if (is_some cli.source.source_url)
    + one_if (is_some cli.source.source_socket)

-- the first of the sources that is given
first_mode : Bool → Option String → Option String → Option Mode
first_mode true u s = some kubernetes
first_mode false (some u) s = some (url u)
first_mode false none (some s) = some (socket s)
first_mode false none none = none

-- What is run; nothing runs behind a count of 0, which is an error.
unfoldable pub mode : Cli → Result NoSource (Option Mode)
unfolding source_count first_mode
mode cli =
    if source_count cli == 0
    then err no_source
    else ok (first_mode cli.source.kubernetes cli.source.source_url cli.source.source_socket)

unfoldable pub sink_config : Cli → SinkConfig
sink_config cli = record {
  connect_timeout_ms = cli.dest.dest_connect_timeout;
  write_timeout_ms = cli.dest.dest_read_timeout;
  idle_timeout_ms = cli.dest.dest_idle_timeout;
  keepalive_interval_secs = cli.dest.dest_keepalive_interval;
  keepalive_timeout_secs = cli.dest.dest_keepalive_timeout;
  reconnect_delay_ms = cli.dest.dest_reconnect_delay;
  reconnect_max_ms = cli.dest.dest_reconnect_max;
}

unfoldable pub source_conn : Cli → SourceConnConfig
source_conn cli = record {
  connect_timeout_ms = cli.connection.source_connect_timeout;
  read_timeout_ms = cli.connection.source_read_timeout;
  idle_timeout_ms = cli.connection.source_idle_timeout;
  keepalive_interval_secs = cli.connection.source_keepalive_interval;
  keepalive_timeout_secs = cli.connection.source_keepalive_timeout;
  source_insecure = cli.connection.source_insecure;
  source_cacert = cli.connection.source_cacert;
  proxy_url = cli.connection.source_proxy;
  proxy_insecure = cli.connection.source_proxy_insecure;
  proxy_cacert = cli.connection.source_proxy_cacert;
  no_proxy = cli.connection.source_no_proxy;
}

unfoldable pub reconnect_config : Cli → ReconnectConfig
reconnect_config cli = record {
  initial_delay_ms = cli.reconnect.source_reconnect_delay;
  max_delay_ms = cli.reconnect.source_reconnect_max;
  max_retries = cli.reconnect.source_reconnect_retries;
}

-- what the stdout sink writes of the lines of the channel
unfoldable pub stdout_sink : List Text → Text
stdout_sink [] = []
stdout_sink (line ∷ rest) = line ++ b'\n' ∷ stdout_sink rest

pub record Liveness : Type 0 where
  pub last_tick : ℕ
  pub max_age_secs : ℕ

unfoldable pub new_liveness : ℕ → ℕ → Liveness
new_liveness now max_age_secs = record { last_tick = now; max_age_secs = max_age_secs }

unfoldable pub tick : ℕ → Liveness → Liveness
tick now l = record l { last_tick = now }

unfoldable pub is_alive : ℕ → Liveness → Bool
is_alive now l = leb (now - l.last_tick) l.max_age_secs

-- the status and the body of `GET /healthz`
unfoldable pub healthz : ℕ → Liveness → ℕ × Text
unfolding is_alive
healthz now l = if is_alive now l then (200, codes "ok\n") else (503, codes "stale\n")

trim_minor : Text → Text
trim_minor [] = []
trim_minor (c ∷ rest) = elim (trim_minor rest) [
  | [] ↦ if is_digit c then c ∷ [] else []
  | d ∷ ds ↦ c ∷ d ∷ ds
]

-- the major and the minor version of the API server, if it answers
unfoldable pub detect_stream_param_support : Option (Text × Text) → Bool
unfolding trim_minor parse_u32
detect_stream_param_support none = false
detect_stream_param_support (some (major, minor)) =
    let minor_number = get_or (parse_u32 (trim_minor minor)) 0 in
    let major_number = get_or (parse_u32 major) 0 in
    (major_number == 1 && leb 32 minor_number) || ltb 1 major_number
