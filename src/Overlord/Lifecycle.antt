-- ===== src/Overlord/Lifecycle.antt =====
-- The lifecycle of crates/vigild/src/overlord/lifecycle.rs: autostart, the deferred services, the stop
-- of everything.
use vigil_rs.Prelude.{
  Bool, true, false, not, none, some, List, [], ◌∷◌, ◌++◌, String, Map, lookup, keys, contains,
  keep, str_eq, if◌then◌else◌,
}
use vigil_rs.Plan.{ServiceConfig, Startup, enabled, disabled}
use vigil_rs.Overlord.State.{
  Overlord, Host, start, stop, shutdown_service, shutdown_check, note, svc_cmd,
}
use vigil_rs.Overlord.Ordering.{after_deps_running}

abbrev pub is_enabled : Startup → Bool
is_enabled enabled = true
is_enabled disabled = false

module _ {F : Type 0} where
  unfoldable pub enabled_services : Map (ServiceConfig F) → List String
  enabled_services [] = []
  enabled_services ((name, c) ∷ rest) =
      if is_enabled c.startup then name ∷ enabled_services rest else enabled_services rest

  unfoldable pub defer : String → Overlord F → Overlord F
  defer name o =
      if contains o.pending_autostart name
      then o
      else record o { pending_autostart = o.pending_autostart ++ name ∷ [] }

  -- The loop of `autostart`; an error of the start is only logged.
  unfoldable pub autostart_each : Host F → List String → Overlord F → Overlord F
  unfolding defer
  autostart_each h [] o = o
  autostart_each h (name ∷ rest) o =
      autostart_each h rest
        (if after_deps_running o name then (svc_cmd h start name o).1 else defer name o)

  unfoldable pub autostart : Host F → Overlord F → Overlord F
  unfolding enabled_services autostart_each
  autostart h o = autostart_each h (enabled_services o.plan.services) o

  -- The loop of `try_start_pending`.
  unfoldable pub start_ready : Host F → List String → Overlord F → Overlord F
  start_ready h [] o = o
  start_ready h (name ∷ rest) o =
      let kept = record o {
        pending_autostart = keep (λ n. not (str_eq n name)) o.pending_autostart;
      } in
      start_ready h rest (svc_cmd h start name kept).1

  unfoldable pub try_start_pending : Host F → Overlord F → Overlord F
  unfolding start_ready
  try_start_pending h o = start_ready h (keep (after_deps_running o) o.pending_autostart) o

  -- `SvcCmd::Shutdown` is sent to an actor that is there, and not awaited: the actor takes it, leaves
  -- its loop and cleans up later.
  unfoldable pub shut_down : String → Overlord F → Overlord F
  shut_down name o = elim (lookup name o.services) [
    | none ↦ o
    | some entry ↦ note (shutdown_service name) o
  ]

  -- The tasks of `stop_all` concern different actors; they are taken one after the other.
  unfoldable pub stop_actors : Host F → List String → Overlord F → Overlord F
  unfolding shut_down
  stop_actors h [] o = o
  stop_actors h (name ∷ rest) o = stop_actors h rest (shut_down name (svc_cmd h stop name o).1)

  unfoldable pub stop_checks : List String → Overlord F → Overlord F
  stop_checks [] o = o
  stop_checks (name ∷ rest) o = stop_checks rest (note (shutdown_check name) o)

  unfoldable pub stop_all : Host F → Overlord F → Overlord F
  unfolding stop_actors stop_checks
  stop_all h o = stop_checks (keys o.checks) (stop_actors h (keys o.services) o)
