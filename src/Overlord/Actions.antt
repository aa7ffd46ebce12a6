-- ===== src/Overlord/Actions.antt =====
-- `handle_services_action` of crates/vigild/src/overlord/handlers.rs. The texts of the change record are
-- left to its parts: the action, the targets and the errors by target.
use vigil_rs.Prelude.{
  ℕ, ◌+◌, ◌%◌, ◌^◌, Bool, Option, none, some, List, [], ◌∷◌, String, lookup, insert, keys, length,
  is_empty, Result, ok, err, if◌then◌else◌,
}
use vigil_rs.Plan.{Plan, CheckConfig, enabled}
use vigil_rs.Overlord.State.{Overlord, Host, SvcReply, SvcError, start, stop, restart, svc_cmd}
use vigil_rs.Overlord.Reload.{reload_layers}

pub data ServiceAction : Type 0 where
  start_services stop_services restart_services autostart_services replan : ServiceAction

pub data ActionError (E : Type 0) : Type 0 where
  of_service : SvcError → ActionError E
  of_layers : E → ActionError E

pub record Change (E : Type 0) : Type 0 where
  pub id : ℕ
  pub action : ServiceAction
  pub targets : List String
  pub errors : List (String × ActionError E)

-- `errors.is_empty()`: the change is done, or it has failed
abbrev pub is_done : {E : Type 0} → Change E → Bool
is_done c = is_empty c.errors

abbrev pub service_error : {E : Type 0} → SvcReply → Option (ActionError E)
service_error (ok u) = none
service_error (err e) = some (of_service e)

abbrev pub layers_error : {E : Type 0} → Result E (Unit {0}) → Option (ActionError E)
layers_error (ok u) = none
layers_error (err e) = some (of_layers e)

abbrev pub enable : {F : Type 0} → String → Plan F → Plan F
enable name plan = elim (lookup name plan.services) [
  | none ↦ plan
  | some c ↦ record plan { services = insert name (record c { startup = enabled }) plan.services }
]

module _ {F E : Type 0} (same : CheckConfig → CheckConfig → Bool) (h : Host F) where
  -- The action on one target; `load` is what the layers are when it is its turn.
  unfoldable pub act_on :
      ServiceAction → Result E (Plan F) → String → Overlord F → Option (ActionError E) × Overlord F
  act_on start_services load name o =
      let (reply, o') = svc_cmd h start name o in (service_error reply, o')
  act_on stop_services load name o =
      let (reply, o') = svc_cmd h stop name o in (service_error reply, o')
  act_on restart_services load name o =
      let (reply, o') = svc_cmd h restart name o in (service_error reply, o')
  act_on autostart_services load name o =
      let (reply, o') = svc_cmd h start name (record o { plan = enable name o.plan }) in
      (service_error reply, o')
  act_on replan load name o =
      let (reply, o') = reload_layers same h load o in (layers_error reply, o')

  abbrev pub with_error :
      String
      → Option (ActionError E)
      → List (String × ActionError E)
      → List (String × ActionError E)
  with_error name none errors = errors
  with_error name (some e) errors = (name, e) ∷ errors

  -- The loop; the layers are read anew for each target, and are given by the number of targets left.
  unfoldable pub act_on_all :
      ServiceAction
      → (ℕ → Result E (Plan F))
      → List String
      → Overlord F
      → List (String × ActionError E) × Overlord F
  unfolding act_on
  act_on_all action load [] o = ([], o)
  act_on_all action load (name ∷ rest) o =
      let (error, o') = act_on action (load (length rest)) name o in
      let (errors, o'') = act_on_all action load rest o' in (with_error name error errors, o'')

  unfoldable pub handle_services_action :
      ServiceAction → (ℕ → Result E (Plan F)) → List String → Overlord F → Change E × Overlord F
  unfolding act_on_all
  handle_services_action action load names o =
      let targets = if is_empty names then keys o.plan.services else names in
      let (errors, o') = act_on_all action load targets o in
      let id = (o'.change_counter + 1) % 2 ^ 64 in
      (
        record { id = id; action = action; targets = targets; errors = errors },
        record o' { change_counter = id },
      )
