-- ===== src/Overlord/Queries.antt =====
-- The queries of crates/vigild/src/overlord/handlers.rs: get_service_infos, query_checks, query_alerts, fmt_on_exit.
-- A signal is its number. What the actor of a check answers, if it does, is an argument.
use vigil_rs.Prelude.{
  ℕ, ◌||◌, Bool, Option, none, some, List, [], ◌∷◌, String, Map, lookup, contains, is_empty, get_or,
  if◌then◌else◌, map,
}
use vigil_rs.Plan.{
  Plan, Startup, Signal, OnExit, restart, shutdown, failure_shutdown, success_shutdown, ignore,
  ServiceConfig, AlertFormat, AlertConfig, CheckConfig,
}
use vigil_rs.Alert.{AlertSender, CheckStatus, check_status}
use vigil_rs.Service.{ServiceStatus, to_api_status, sigterm}
use vigil_rs.Overlord.State.{Overlord, ServiceEntry}

unfoldable pub fmt_on_exit : OnExit → String
fmt_on_exit restart = "restart"
fmt_on_exit ignore = "ignore"
fmt_on_exit shutdown = "shutdown"
fmt_on_exit failure_shutdown = "failure-shutdown"
fmt_on_exit success_shutdown = "success-shutdown"

pub record ServiceInfo : Type 0 where
  pub name : String
  pub startup : Startup
  pub current : ServiceStatus
  pub stop_signal : Signal
  pub on_success : String
  pub on_failure : String

-- `names.is_empty() || names.contains(name)`
abbrev pub is_asked : List String → String → Bool
is_asked names name = is_empty names || contains names name

abbrev pub and_then : {A B : Type 0} → Option A → (A → Option B) → Option B
and_then none f = none
and_then (some a) f = f a

policy_or_restart : Option OnExit → String
unfolding fmt_on_exit
policy_or_restart none = "restart"
policy_or_restart (some policy) = fmt_on_exit policy

-- what an actor answers about its check
pub record CheckInfo : Type 0 where
  pub name : String
  pub status : CheckStatus
  pub failures : ℕ
  pub threshold : ℕ

pub record AlertInfo : Type 0 where
  pub name : String
  pub url : String
  pub format : AlertFormat
  pub on_check : List String
  pub check_status : List (String × Option CheckStatus)

answered : (String → Option CheckInfo) → List String → Map CheckConfig → List CheckInfo
answered ask names [] = []
answered ask names ((name, config) ∷ rest) =
    let more = answered ask names rest in
    if is_asked names name then elim (ask name) [ none ↦ more | some info ↦ info ∷ more ] else more

alert_info : AlertSender → String → AlertConfig → AlertInfo
alert_info sender name cfg = record {
  name = name;
  url = cfg.url;
  format = cfg.format;
  on_check = cfg.on_check;
  check_status = map (λ c. (c, check_status sender c)) cfg.on_check;
}

alert_infos : AlertSender → List String → Map AlertConfig → List AlertInfo
unfolding alert_info
alert_infos sender names [] = []
alert_infos sender names ((name, cfg) ∷ rest) =
    let more = alert_infos sender names rest in
    if is_asked names name then alert_info sender name cfg ∷ more else more

module _ {F : Type 0} where
  unfoldable pub service_info : Plan F → String → ServiceEntry F → ServiceInfo
  unfolding policy_or_restart
  service_info plan name e =
      let cfg = lookup name plan.services in
      record {
        name = name;
        startup = e.startup;
        current = to_api_status e.state;
        stop_signal = get_or (and_then cfg (λ (c : ServiceConfig F). c.stop_signal)) sigterm;
        on_success = policy_or_restart (and_then cfg (λ (c : ServiceConfig F). c.on_success));
        on_failure = policy_or_restart (and_then cfg (λ (c : ServiceConfig F). c.on_failure));
      }

  infos_of : Plan F → List String → Map (ServiceEntry F) → List ServiceInfo
  unfolding service_info
  infos_of plan names [] = []
  infos_of plan names ((name, e) ∷ rest) =
      let more = infos_of plan names rest in
      if is_asked names name then service_info plan name e ∷ more else more

  unfoldable pub get_service_infos : List String → Overlord F → List ServiceInfo
  unfolding infos_of
  get_service_infos names o = infos_of o.plan names o.services

  unfoldable pub query_checks :
      (String → Option CheckInfo) → List String → Overlord F → List CheckInfo
  unfolding answered
  query_checks ask names o = answered ask names o.checks

  unfoldable pub query_alerts : List String → Overlord F → List AlertInfo
  unfolding alert_infos
  query_alerts names o = alert_infos o.alert_sender names o.plan.alerts
