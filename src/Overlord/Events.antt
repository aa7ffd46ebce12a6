-- ===== src/Overlord/Events.antt =====
-- crates/vigild/src/overlord/events.rs: the events of services and checks.
use vigil_rs.Prelude.{
  ℕ, Bool, true, false, not, ◌&&◌, Option, none, some, List, [], ◌∷◌, String, Map, lookup, insert,
  contains, is_empty, if◌then◌else◌,
}
use vigil_rs.Plan.{
  ServiceConfig, OnExit, restart, ignore, shutdown, success_shutdown, failure_shutdown,
}
use vigil_rs.Alert.{CheckStatus, is_down, handle_check_event as notify}
use vigil_rs.Service.{
  ServiceState, inactive, error, is_running, Event, state_changed, process_exited, daemon_shutdown,
}
use vigil_rs.Overlord.State.{
  Overlord, ServiceEntry, Host, stop, restart as restart_service, alert_fire, note, svc_cmd,
}
use vigil_rs.Overlord.Ordering.{runs}
use vigil_rs.Overlord.Lifecycle.{try_start_pending, stop_all}

-- `matches!(new_state, Inactive | Error)`
abbrev pub is_down_for_good : ServiceState → Bool
is_down_for_good inactive = true
is_down_for_good error = true
is_down_for_good _ = false

module _ {F : Type 0} where
  unfoldable pub observe : String → ServiceState → Overlord F → Overlord F
  observe name state o = elim (lookup name o.services) [
    | none ↦ o
    | some entry ↦ record o { services = insert name (record entry { state = state }) o.services }
  ]

  -- the services that require this one and run
  unfoldable pub dependents : Map (ServiceEntry F) → String → Map (ServiceConfig F) → List String
  dependents services name [] = []
  dependents services name ((dependent, c) ∷ rest) =
      if contains c.requires name && runs services dependent
      then dependent ∷ dependents services name rest
      else dependents services name rest

  unfoldable pub stop_each : Host F → List String → Overlord F → Overlord F
  stop_each h [] o = o
  stop_each h (name ∷ rest) o = stop_each h rest (svc_cmd h stop name o).1

  unfoldable pub cascade : Host F → String → ServiceState → Overlord F → Overlord F
  unfolding dependents stop_each
  cascade h name state o =
      if is_down_for_good state
      then stop_each h (dependents o.services name o.plan.services) o
      else o

  unfoldable pub unblock : Host F → ServiceState → Overlord F → Overlord F
  unblock h state o =
      if is_running state && not (is_empty o.pending_autostart) then try_start_pending h o else o

  -- The number is the exit code of a shutdown that the event asks for.
  unfoldable pub handle_svc_event : Host F → Event → Overlord F → Option ℕ × Overlord F
  unfolding observe cascade unblock
  handle_svc_event h e o = elim e.kind [
    | state_changed state ↦
        (none, cascade h e.service state (unblock h state (observe e.service state o)))
    | process_exited success ↦ (none, o)
    | daemon_shutdown code ↦ (some code, o)
  ]

  unfoldable pub note_fires : List String → Overlord F → Overlord F
  note_fires [] o = o
  note_fires (name ∷ rest) o = note_fires rest (note (alert_fire name) o)

  -- the services that act on a failure of the check
  unfoldable pub actions_for : String → Map (ServiceConfig F) → List (String × OnExit)
  actions_for check [] = []
  actions_for check ((name, c) ∷ rest) = elim (lookup check c.on_check_failure) [
    | none ↦ actions_for check rest
    | some action ↦ (name, action) ∷ actions_for check rest
  ]

  -- The loop over the actions; a shutdown ends the process, with its exit code.
  unfoldable pub act : Host F → List (String × OnExit) → Overlord F → Option ℕ × Overlord F
  act h [] o = (none, o)
  act h ((name, restart) ∷ rest) o = act h rest (svc_cmd h restart_service name o).1
  act h ((name, ignore) ∷ rest) o = act h rest o
  act h ((name, shutdown) ∷ rest) o = (some 10, stop_all h o)
  act h ((name, success_shutdown) ∷ rest) o = (some 0, stop_all h o)
  act h ((name, failure_shutdown) ∷ rest) o = (some 10, stop_all h o)

  unfoldable pub handle_check_event :
      Host F → String → CheckStatus → Overlord F → Option ℕ × Overlord F
  unfolding note_fires actions_for act
  handle_check_event h check status o =
      let (fired, sender) = notify check status o.alert_sender in
      let noted = note_fires fired (record o { alert_sender = sender }) in
      if is_down status then act h (actions_for check noted.plan.services) noted else (none, noted)
