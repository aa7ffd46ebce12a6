-- ===== src/Overlord/Reload.antt =====
-- `sync_actors` and `reload_layers` of crates/vigild/src/overlord/lifecycle.rs. Reading and parsing the
-- layers (Load) is an argument here, its result; so is the comparison of two check configurations, which the
-- code makes on their JSON text.
use vigil_rs.Prelude.{
  ℕ, ◌*◌, Bool, not, Option, none, some, List, [], ◌∷◌, String, Map, lookup, insert, remove, keys,
  contains, keep, get_or, is_some, Result, ok, err, if◌then◌else◌, to_option, Text,
}
use vigil_rs.Plan.{ServiceConfig, CheckConfig, Plan}
use vigil_rs.Duration.{parse_duration}
use vigil_rs.Alert.{
  AlertSender, up, check_status, update_alerts, update_queue_limits, default_delivery_queue,
  default_delivery_age,
}
use vigil_rs.Service.{new, inactive}
use vigil_rs.Overlord.State.{Overlord, ServiceEntry, Host, shutdown_check, spawn_check, note}
use vigil_rs.Overlord.Lifecycle.{is_enabled, autostart, shut_down}

-- the keys of the first map that the second has not
abbrev pub removed : {V W : Type 0} → Map V → Map W → List String
removed there current = keep (λ n. not (contains (keys current) n)) (keys there)

-- in milliseconds
max_age : Option Text → ℕ
max_age none = default_delivery_age * 1_000
max_age (some s) = get_or (to_option (parse_duration s)) (default_delivery_age * 1_000)

module _ {F : Type 0} where
  -- An actor for each service that has none.
  unfoldable pub sync_services : Map (ServiceConfig F) → Map (ServiceEntry F) → Map (ServiceEntry F)
  sync_services [] services = services
  sync_services ((name, c) ∷ rest) services = sync_services rest (
      if is_some (lookup name services)
      then services
      else insert name (record { actor = new name c; state = inactive; startup = c.startup })
          services)

  unfoldable pub start_check : String → CheckConfig → Overlord F → Overlord F
  start_check name config o =
      note (spawn_check name (get_or (check_status o.alert_sender name) up))
        (record o { checks = insert name config o.checks })

  -- One round of the loop over the checks of the plan.
  unfoldable pub sync_check :
      (CheckConfig → CheckConfig → Bool) → String → CheckConfig → Overlord F → Overlord F
  unfolding start_check
  sync_check same name config o =
      if not (is_enabled config.startup) then o else elim (lookup name o.checks) [
        | none ↦ start_check name config o
        | some old ↦
            if same old config
            then o
            else start_check name config
                (note (shutdown_check name) (record o { checks = remove name o.checks }))
      ]

  unfoldable pub sync_checks :
      (CheckConfig → CheckConfig → Bool) → Map CheckConfig → Overlord F → Overlord F
  unfolding sync_check
  sync_checks same [] o = o
  sync_checks same ((name, config) ∷ rest) o = sync_checks same rest (sync_check same name config o)

  unfoldable pub sync_actors : (CheckConfig → CheckConfig → Bool) → Overlord F → Overlord F
  unfolding sync_services sync_checks
  sync_actors same o =
      sync_checks same o.plan.checks
        (record o { services = sync_services o.plan.services o.services })

  unfoldable pub drop_services : List String → Overlord F → Overlord F
  drop_services [] o = o
  drop_services (name ∷ rest) o =
      let o' = shut_down name o in
      drop_services rest (record o' { services = remove name o'.services })

  unfoldable pub drop_checks : List String → Overlord F → Overlord F
  drop_checks [] o = o
  drop_checks (name ∷ rest) o =
      drop_checks rest (note (shutdown_check name) (record o { checks = remove name o.checks }))

  -- The alert sender of a new plan.
  unfoldable pub new_sender : Plan F → AlertSender → AlertSender
  unfolding max_age
  new_sender plan s =
      update_queue_limits (get_or plan.alert_queue_depth default_delivery_queue)
        (max_age plan.alert_max_queue_time) (update_alerts plan.alerts s)

  -- The actors of a new plan, started and gone, before autostart.
  unfoldable pub replan_actors :
      (CheckConfig → CheckConfig → Bool) → Plan F → Overlord F → Overlord F
  unfolding sync_actors drop_services drop_checks new_sender
  replan_actors same plan o =
      let planned = record o { plan = plan; alert_sender = new_sender plan o.alert_sender } in
      let synced = record (sync_actors same planned) { pending_autostart = [] } in
      let without = drop_services (removed synced.services plan.services) synced in
      drop_checks (removed without.checks plan.checks) without

  unfoldable pub install :
      (CheckConfig → CheckConfig → Bool) → Host F → Plan F → Overlord F → Overlord F
  unfolding replan_actors
  install same h plan o = autostart h (replan_actors same plan o)

  unfoldable pub reload_layers :
      {E : Type 0}
      → (CheckConfig → CheckConfig → Bool)
      → Host F
      → Result E (Plan F)
      → Overlord F
      → Result E (Unit {0}) × Overlord F
  unfolding install
  reload_layers same h (err e) o = (err e, o)
  reload_layers same h (ok plan) o = (ok tt, install same h plan o)
