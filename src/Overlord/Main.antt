-- ===== src/Overlord/Main.antt =====
-- The main loop of the overlord, `run` of crates/vigild/src/overlord/mod.rs, with `handle_cmd` (handlers.rs) and
-- `forward_signal` (lifecycle.rs). A round takes what is next: a command before an event of a
-- service, and that before an event of a check. The channels are queues, the oldest first. The
-- address and the times of the system's information are left out.
use vigil_rs.Prelude.{
  ℕ, Bool, true, false, Option, none, some, List, [], ◌∷◌, ◌++◌, String, Map, keep, ◌==◌,
  if◌then◌else◌, Result,
}
use vigil_rs.Plan.{Plan, CheckConfig, Signal}
use vigil_rs.Alert.{CheckStatus}
use vigil_rs.Service.{Event, step, forward_signal}
use vigil_rs.Overlord.State.{Overlord, ServiceEntry, Host}
use vigil_rs.Overlord.Lifecycle.{autostart, stop_all}
use vigil_rs.Overlord.Reload.{reload_layers, sync_actors}
use vigil_rs.Overlord.Events.{handle_svc_event, handle_check_event}
use vigil_rs.Overlord.Actions.{ServiceAction, Change, handle_services_action}
use vigil_rs.Overlord.Queries.{
  ServiceInfo, CheckInfo, AlertInfo, get_service_infos, query_checks, query_alerts,
}

-- The id of a change is its number; a text that is no number is the id of none.
pub data Cmd : Type 0 where
  services : ServiceAction → List String → Cmd
  get_services get_checks get_alerts : List String → Cmd
  get_changes : Option ℕ → Cmd
  get_system_info reload shutdown : Cmd
  signal : Signal → Cmd

pub data Answer (E : Type 0) : Type 0 where
  change : Change E → Answer E
  service_infos : List ServiceInfo → Answer E
  check_infos : List CheckInfo → Answer E
  alert_infos : List AlertInfo → Answer E
  changes : List (Change E) → Answer E
  system_info : Answer E
  reloaded : Result E (Unit {0}) → Answer E

-- How the loop ends: it is left, or the process exits with a code.
pub data Ending : Type 0 where
  left : Ending
  exits : ℕ → Ending

pub record Daemon (F E : Type 0) : Type 0 where
  pub overlord : Overlord F
  pub changes : List (Change E)
  pub commands : List Cmd
  pub is_closed : Bool
  pub events : List Event
  pub check_events : List (String × CheckStatus)
  pub answers : List (Answer E)
  pub ended : Option Ending

-- What the loop takes from its surroundings.
pub record Surroundings (F E : Type 0) : Type 0 where
  pub host : Host F
  pub same : CheckConfig → CheckConfig → Bool
  pub load : ℕ → Result E (Plan F)
  pub ask : String → Option CheckInfo

module _ {F : Type 0} where
  signal_each : Host F → Signal → Map (ServiceEntry F) → Map (ServiceEntry F)
  signal_each h s [] = []
  signal_each h s ((name, e) ∷ rest) =
      (name, record e { actor = (step h.world (forward_signal s) e.actor).1 })
      ∷ signal_each h s rest

  unfoldable pub signal_all : Host F → Signal → Overlord F → Overlord F
  unfolding signal_each
  signal_all h s o = record o { services = signal_each h s o.services }

module _ {F E : Type 0} (w : Surroundings F E) where
  unfoldable pub answer_with : Answer E → Daemon F E → Daemon F E
  answer_with a d = record d { answers = a ∷ d.answers }

  asked_changes : Option ℕ → List (Change E) → List (Change E)
  asked_changes none all = all
  asked_changes (some id) all = keep (λ (c : Change E). c.id == id) all

  unfoldable pub finish : Daemon F E → Daemon F E
  unfolding stop_all
  finish d = record d { overlord = stop_all w.host d.overlord; ended = some left }

  unfoldable pub handle_cmd : Cmd → Daemon F E → Daemon F E
  unfolding answer_with asked_changes finish signal_all
  handle_cmd (services action names) d =
      let (c, o) = handle_services_action w.same w.host action w.load names d.overlord in
      answer_with (change c) (record d { overlord = o; changes = d.changes ++ c ∷ [] })
  handle_cmd (get_services names) d =
      answer_with (service_infos (get_service_infos names d.overlord)) d
  handle_cmd (get_checks names) d =
      answer_with (check_infos (query_checks w.ask names d.overlord)) d
  handle_cmd (get_alerts names) d = answer_with (alert_infos (query_alerts names d.overlord)) d
  handle_cmd (get_changes id) d = answer_with (changes (asked_changes id d.changes)) d
  handle_cmd get_system_info d = answer_with system_info d
  handle_cmd reload d =
      let (result, o) = reload_layers w.same w.host (w.load 0) d.overlord in
      answer_with (reloaded result) (record d { overlord = o })
  handle_cmd (signal s) d = record d { overlord = signal_all w.host s d.overlord }
  handle_cmd shutdown d = finish d

  -- An exit that an event of a service asks for, behind `stop_all`.
  unfoldable pub after_event : Option ℕ × Overlord F → Daemon F E → Daemon F E
  unfolding stop_all
  after_event (none, o) d = record d { overlord = o }
  after_event (some code, o) d = record d {
    overlord = stop_all w.host o;
    ended = some (exits code);
  }

  -- The handler of check events has stopped everything itself.
  unfoldable pub after_check_event : Option ℕ × Overlord F → Daemon F E → Daemon F E
  after_check_event (none, o) d = record d { overlord = o }
  after_check_event (some code, o) d = record d { overlord = o; ended = some (exits code) }

  unfoldable pub take_check_event : List (String × CheckStatus) → Daemon F E → Daemon F E
  unfolding after_check_event
  take_check_event [] d = d
  take_check_event ((check, status) ∷ rest) d =
      after_check_event (handle_check_event w.host check status d.overlord)
        (record d { check_events = rest })

  unfoldable pub take_event : List Event → Daemon F E → Daemon F E
  unfolding after_event take_check_event
  take_event [] d = take_check_event d.check_events d
  take_event (e ∷ rest) d =
      after_event (handle_svc_event w.host e d.overlord) (record d { events = rest })

  unfoldable pub take_command : List Cmd → Daemon F E → Daemon F E
  unfolding handle_cmd take_event finish
  take_command [] d = if d.is_closed then finish d else take_event d.events d
  take_command (cmd ∷ rest) d = handle_cmd cmd (record d { commands = rest })

  -- A round of the loop; nothing happens once it has ended.
  unfoldable pub round : Daemon F E → Daemon F E
  unfolding take_command
  round d = elim d.ended [ some ending ↦ d | none ↦ take_command d.commands d ]

  -- What others put into the queues while the overlord is at work.
  pub data Step (d : Daemon F E) : Daemon F E → Type 0 where
    takes : Step d (round d)
    commanded : (cmd : Cmd) → Step d (record d { commands = d.commands ++ cmd ∷ [] })
    closes : Step d (record d { is_closed = true })
    event_comes : (e : Event) → Step d (record d { events = d.events ++ e ∷ [] })
    check_event_comes :
        (e : String × CheckStatus) → Step d (record d { check_events = d.check_events ++ e ∷ [] })

  pub data Reach (first : Daemon F E) : Daemon F E → Type 0 where
    here : Reach first first
    later : {d d' : Daemon F E} → Reach first d → Step d d' → Reach first d'

  unfoldable pub start : Overlord F → Daemon F E
  unfolding sync_actors autostart
  start o = record {
    overlord = autostart w.host (sync_actors w.same o);
    changes = [];
    commands = [];
    is_closed = false;
    events = [];
    check_events = [];
    answers = [];
    ended = none;
  }
