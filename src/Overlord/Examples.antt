-- ===== src/Overlord/Examples.antt =====
-- The theorems on the overlord with a service `web` that requires a service `app`.
use vigil_rs.Prelude.{
  ℕ, true, ◌≡◌, refl, none, some, [], ◌∷◌, String, contains, lookup, is_some, ok, Result, keys,
}
use vigil_rs.Plan.{Plan, ServiceConfig, enabled}
use vigil_rs.Plan.Samples.{sample_service}
use vigil_rs.Alert.{with_queue_limits}
use vigil_rs.Service.{new, inactive, active, state_changed}
use vigil_rs.Service.Samples.{world}
use vigil_rs.Overlord.State.{Overlord, Host, stop, restart, command}
use vigil_rs.Overlord.Ordering.{runs}
use vigil_rs.Overlord.Lifecycle.{enabled_services, autostart}
use vigil_rs.Overlord.Reload.{install}
use vigil_rs.Overlord.Events.{handle_svc_event}
use vigil_rs.Overlord.Actions.{restart_services, handle_services_action}
use vigil_rs.Overlord.Requested.{handle_services_action-sent}
use vigil_rs.Overlord.View.{has, config_of}
use vigil_rs.Overlord.Autostart.{IsAutostarted, autostart-IsAutostarted}
use vigil_rs.Overlord.Waiting.{IsWaiting, handle_svc_event-IsWaiting, autostart-IsWaiting}
use vigil_rs.Overlord.Cascade.{handle_svc_event-sent}
use vigil_rs.Overlord.Reloaded.{config_after, install-services}

abbrev web_service : ServiceConfig ℕ
web_service = record sample_service { requires = "app" ∷ [] }

abbrev plan : Plan ℕ
plan = record {
  layers = [];
  services = ("app", sample_service) ∷ ("web", web_service) ∷ [];
  checks = [];
  alerts = [];
  alert_queue_depth = none;
  alert_max_queue_time = none;
}

abbrev pub host : Host ℕ
host = record { world = world; spawned = λ name. some 7 }

-- both services down, and nothing waiting
abbrev pub idle : Overlord ℕ
idle = record {
  plan = plan;
  services =
      ("app", record { actor = new "app" sample_service; state = inactive; startup = enabled })
      ∷ ("web", record { actor = new "web" web_service; state = inactive; startup = enabled })
      ∷ [];
  checks = [];
  alert_sender = with_queue_limits 8 60_000;
  change_counter = 0;
  pending_autostart = [];
  sent = [];
}

-- `app` has been started, and its report is on its way
abbrev started : Overlord ℕ
started = autostart host idle

-- both services are reported to run
abbrev both_up : Overlord ℕ
both_up = record idle {
  services =
      ("app", record { actor = new "app" sample_service; state = active; startup = enabled })
      ∷ ("web", record { actor = new "web" web_service; state = active; startup = enabled })
      ∷ [];
}

autostart-IsAutostarted_example : IsAutostarted (enabled_services plan.services) idle started
autostart-IsAutostarted_example = autostart-IsAutostarted host idle

handle_svc_event-IsWaiting_example :
    IsWaiting
      (handle_svc_event host (record { service = "app"; kind = state_changed active }) started).1
handle_svc_event-IsWaiting_example =
    handle_svc_event-IsWaiting host (record { service = "app"; kind = state_changed active })
      started (autostart-IsWaiting host idle refl)

handle_svc_event-sent_example :
    (handle_svc_event host
      (record { service = "app"; kind = state_changed inactive })
      both_up).1.sent
    ≡ command "web" stop ∷ []
unfolding runs lookup contains
handle_svc_event-sent_example = handle_svc_event-sent host "app" inactive both_up refl

-- `web` waits, and `app` is reported to run
abbrev web_waits : Overlord ℕ
web_waits = record idle {
  services =
      ("app", record { actor = new "app" sample_service; state = active; startup = enabled })
      ∷ ("web", record { actor = new "web" web_service; state = inactive; startup = enabled })
      ∷ [];
  pending_autostart = "web" ∷ [];
}

install-services_example :
    let o' = install (λ old config. true) host plan (record idle { services = [] }) in
    (o'.plan ≡ plan)
    × ((n : String) → has o' n ≡ is_some (lookup n plan.services))
    × ((n : String) → config_of o'.services n ≡ config_after [] plan n)
install-services_example =
    install-services (λ old config. true) host plan (record idle { services = [] })

-- the layers as they are read, whenever that is
abbrev load : ℕ → Result (Unit {0}) (Plan ℕ)
load left = ok plan

handle_services_action-sent_example :
    let o' = (handle_services_action (λ old config. true) host restart_services load [] idle).1 in
    (o'.sent ≡ command "web" restart ∷ command "app" restart ∷ [])
    × (o'.plan ≡ plan)
    × (o'.pending_autostart ≡ [])
unfolding has lookup keys
handle_services_action-sent_example =
    handle_services_action-sent (λ old config. true) host load restart [] idle
