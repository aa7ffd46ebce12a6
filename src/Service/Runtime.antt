-- ===== src/Service/Runtime.antt =====
-- The state of a service actor: `Actor` of crates/vigild/src/service/actor/mod.rs with the local
-- variables of `run`, and what the actor does to its surroundings, newest first.
use vigil_rs.Prelude.{
  ℕ, Bool, false, Option, none, List, [], ◌∷◌, String, Text, Map, Result, Option,
}
use vigil_rs.Plan.{ServiceConfig, Signal}
use vigil_rs.Command.Words.{CommandError}
use vigil_rs.Credentials.{Accounts, Credentials, CredentialError}
use vigil_rs.Service.State.{ServiceState, inactive, is_active}

pub data EventKind : Type 0 where
  state_changed : ServiceState → EventKind
  process_exited : Bool → EventKind
  daemon_shutdown : ℕ → EventKind

pub record Event : Type 0 where
  pub service : String
  pub kind : EventKind

-- the argument of `kill`: a process group (a negative pid) or a process
pub data Target : Type 0 where
  group : ℕ → Target
  process : ℕ → Target

pub data KillResult : Type 0 where
  delivered no_such_process refused : KillResult

-- a call of `kill`
pub record Kill : Type 0 where
  pub target : Target
  pub signal : Signal

-- what `do_start` asks the operating system for, with the process id that it got
pub record Launch : Type 0 where
  pub pid : ℕ
  pub argv : List Text
  pub environment : Map String
  pub working_dir : Option String
  pub credentials : Option Credentials
  pub captured : Bool

pub data StartError : Type 0 where
  service_stopping no_command empty_command spawn_failed : StartError
  bad_command : CommandError → StartError
  bad_credentials : CredentialError → StartError

abbrev pub Reply : Type 0
Reply = Result StartError (Unit {0})

pub record Actor (F : Type 0) : Type 0 where
  pub name : String
  pub config : ServiceConfig F
  pub state : ServiceState
  pub child : Option ℕ
  pub backoff_count : ℕ
  pub current_backoff : ℕ
  -- the locals of `run`: the two timers, with their delays, and the flag
  pub backoff_sleep : Option ℕ
  pub stop_deadline : Option ℕ
  pub pending_restart : Bool
  -- the channel to the overlord, the signals, the processes started, the gauge and the counter
  pub events : List Event
  pub kills : List Kill
  pub launches : List Launch
  pub active_gauge : Bool
  pub start_count : ℕ

-- What the actor takes from its surroundings: the product of a delay and a factor as floating-point
-- numbers, cut to whole numbers of any size, the factor 2.0, the answers of `kill` and the accounts.
pub record World (F : Type 0) : Type 0 where
  pub scale : ℕ → F → ℕ
  pub two : F
  pub kill : Target → Signal → KillResult
  pub accounts : Accounts

abbrev pub default_kill_delay : ℕ
default_kill_delay = 5_000

abbrev pub default_backoff_delay : ℕ
default_backoff_delay = 500

abbrev pub default_backoff_limit : ℕ
default_backoff_limit = 30_000

abbrev pub sigterm : Signal
sigterm = 15

abbrev pub sigkill : Signal
sigkill = 9

module _ {F : Type 0} where
  unfoldable pub new : String → ServiceConfig F → Actor F
  new name config = record {
    name = name;
    config = config;
    state = inactive;
    child = none;
    backoff_count = 0;
    current_backoff = default_backoff_delay;
    backoff_sleep = none;
    stop_deadline = none;
    pending_restart = false;
    events = [];
    kills = [];
    launches = [];
    active_gauge = false;
    start_count = 0;
  }

  unfoldable pub send_event : EventKind → Actor F → Actor F
  send_event kind a = record a { events = record { service = a.name; kind = kind } ∷ a.events }

  unfoldable pub transition : ServiceState → Actor F → Actor F
  unfolding send_event
  transition new_state a =
      send_event (state_changed new_state)
        (record a { state = new_state; active_gauge = is_active new_state })
