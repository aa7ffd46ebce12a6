-- ===== src/Check/Actor.antt =====
-- `run` of crates/vigild/src/check/actor/mod.rs: its settings, its locals, and a round of its loop on the
-- result of a probe. The probe itself is an argument. The gauge and the counters of the metrics are
-- left out; the events are kept newest first.
use vigil_rs.Prelude.{
  ℕ, ◌+◌, ◌%◌, ◌^◌, min, Bool, true, false, ◌&&◌, Option, none, some, List, [], ◌∷◌, String, Text,
  to_option, get_or, leb, if◌then◌else◌,
}
use vigil_rs.Plan.{CheckConfig}
use vigil_rs.Duration.{parse_duration}
use vigil_rs.Alert.{CheckStatus, up, down, is_up, is_down}
use vigil_rs.Alert.History.{CheckEvent}

-- in milliseconds
abbrev pub default_period : ℕ
default_period = 10_000

abbrev pub default_timeout : ℕ
default_timeout = 3_000

abbrev pub default_threshold : ℕ
default_threshold = 3

abbrev pub default_check_delay : ℕ
default_check_delay = 3_000

abbrev pub u32_mod : ℕ
u32_mod = 2 ^ 32

duration_or : ℕ → Option Text → ℕ
duration_or standard none = standard
duration_or standard (some s) = get_or (to_option (parse_duration s)) standard

pub record Settings : Type 0 where
  pub period : ℕ
  pub timeout : ℕ
  pub threshold : ℕ
  pub delay : ℕ

unfoldable pub settings : CheckConfig → Settings
unfolding duration_or
settings config =
    let period = duration_or default_period config.period in
    record {
      period = period;
      timeout = min (duration_or default_timeout config.timeout) period;
      threshold = get_or config.threshold default_threshold;
      delay = duration_or default_check_delay config.delay;
    }

pub record CheckActor : Type 0 where
  pub name : String
  pub threshold : ℕ
  pub failures : ℕ
  pub status : CheckStatus
  pub first_run : Bool
  pub events : List CheckEvent

-- The locals where the loop starts.
unfoldable pub begin : String → CheckConfig → CheckStatus → CheckActor
unfolding settings
begin name config initial_status = record {
  name = name;
  threshold = (settings config).threshold;
  failures = 0;
  status = initial_status;
  first_run = true;
  events = [];
}

unfoldable pub send : CheckActor → CheckActor
send a = record a { events = record { check = a.name; status = a.status } ∷ a.events }

-- the arm of a probe that succeeds
unfoldable pub succeeded : CheckActor → CheckActor
unfolding send
succeeded a =
    let b = if is_down a.status then send (record a { status = up }) else a in
    record b { failures = 0 }

-- the arm of a probe that fails; the counter is 32 bits wide
unfoldable pub failed_once : CheckActor → CheckActor
unfolding send
failed_once a =
    let b : CheckActor = record a { failures = (a.failures + 1) % u32_mod } in
    if leb b.threshold b.failures && is_up b.status then send (record b { status = down }) else b

unfoldable pub tick : Bool → CheckActor → CheckActor
unfolding succeeded failed_once send
tick ok a =
    let b = if ok then succeeded a else failed_once a in
    if b.first_run then send (record b { first_run = false }) else b

-- The rounds of the loop on the results of the probes, newest first.
unfoldable pub ticks : List Bool → CheckActor → CheckActor
unfolding tick
ticks [] a = a
ticks (ok ∷ before) a = tick ok (ticks before a)

-- the answer to `GetStatus`: the status, the failures and the threshold
unfoldable pub get_status : CheckActor → CheckStatus × ℕ × ℕ
get_status a = (a.status, a.failures, a.threshold)
