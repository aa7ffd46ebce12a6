-- ===== src/Api.antt =====
-- The handlers of crates/vigild/src/api/handlers/. A handler checks the access of its caller, and either answers itself or
-- sends one command to the overlord and answers with the reply, which comes when the overlord has
-- taken the command and is an argument here: none where the overlord drops it.
mod Names
pub mod Access
pub mod Follow
mod Examples
use vigil_rs.Prelude.{
  ℕ, Bool, true, false, Option, none, some, List, [], ◌∷◌, ◌++◌, String, Map, keep, not, map,
  is_empty, get_or, Result, ok, err, ◌==◌, if◌then◌else◌,
}
use vigil_rs.Api.Names.{parse_names}
use vigil_rs.Identity.{
  IdentityAccess, metrics_access, read_access, write_access, admin_access, Identity, list, add,
  remove_all,
}
use vigil_rs.Identity.{allows}
use vigil_rs.Logs.{LogEntry, LogStore, tail}
use vigil_rs.Overlord.{ServiceAction, Change}
use vigil_rs.Overlord.Main.{
  Cmd, services, get_services, get_changes, get_checks, get_alerts, get_system_info, Answer, change,
  changes, reloaded,
}

pub data DaemonAction : Type 0 where
  stop restart : DaemonAction

-- a request to a route, with its query and body
pub data Call : Type 0 where
  system_info_get metrics_get replan_post : Call
  services_get checks_get alerts_get identities_get : Option String → Call
  services_post : ServiceAction → List String → Call
  changes_get : ℕ → Call
  logs_get : Option String → Option ℕ → Call
  vigild_post : DaemonAction → Call
  identities_post : List (String × Identity) → Call
  identities_delete : List String → Call

-- The state that the handlers share; what is sent to the overlord is the queue of its commands.
pub record AppState : Type 0 where
  pub identity_store : Map Identity
  pub log_store : LogStore
  pub commands : List Cmd
  pub is_closed : Bool
  pub shutdown : List DaemonAction

-- an error with its status, or the result
pub data Response (E : Type 0) : Type 0 where
  failed : ℕ → Response E
  done : Response E
  answered : Answer E → Response E
  entries : List LogEntry → Response E
  identities : List Identity → Response E
  removed : List String → Response E
  rendered : Response E

unfoldable pub add_each : List (String × Identity) → Map Identity → Map Identity
add_each [] s = s
add_each ((name, spec) ∷ rest) s = add_each rest (add name spec s)

module _ {E : Type 0} where
  -- `caller.require(needed)?`
  unfoldable pub require :
      IdentityAccess → IdentityAccess → Response E × AppState → AppState → Response E × AppState
  unfolding allows
  require has needed then_what s = if allows has needed then then_what else (failed 403, s)

  reply : (Answer E → Response E) → Option (Answer E) → Response E
  reply body none = failed 500
  reply body (some a) = body a

  -- The command is sent, and its reply awaited; nothing is sent where the overlord has ended.
  unfoldable pub ask :
      Cmd → (Answer E → Response E) → Option (Answer E) → AppState → Response E × AppState
  unfolding reply
  ask cmd body a s =
      if s.is_closed
      then (failed 500, s)
      else (reply body a, record s { commands = s.commands ++ cmd ∷ [] })

  -- The first of the changes; an answer of another kind does not come.
  first_change : Answer E → Response E
  first_change (changes (c ∷ rest)) = answered (change c)
  first_change _ = failed 404

  reload_done : Answer E → Response E
  reload_done (reloaded (err e)) = failed 500
  reload_done _ = done

  unfoldable pub system_info : Option (Answer E) → AppState → Response E × AppState
  unfolding ask
  system_info a s = ask get_system_info answered a s

  unfoldable pub get_metrics : IdentityAccess → AppState → Response E × AppState
  unfolding require
  get_metrics has s = require has metrics_access (rendered, s) s

  unfoldable pub replan : IdentityAccess → Option (Answer E) → AppState → Response E × AppState
  unfolding ask reload_done require
  replan has a s = require has write_access (ask Cmd.reload reload_done a s) s

  unfoldable pub list_services :
      IdentityAccess → Option String → Option (Answer E) → AppState → Response E × AppState
  unfolding ask parse_names require
  list_services has q a s =
      require has read_access (ask (get_services (parse_names q)) answered a s) s

  unfoldable pub list_checks :
      IdentityAccess → Option String → Option (Answer E) → AppState → Response E × AppState
  unfolding ask parse_names require
  list_checks has q a s = require has read_access (ask (get_checks (parse_names q)) answered a s) s

  unfoldable pub list_alerts :
      IdentityAccess → Option String → Option (Answer E) → AppState → Response E × AppState
  unfolding ask parse_names require
  list_alerts has q a s = require has read_access (ask (get_alerts (parse_names q)) answered a s) s

  unfoldable pub list_identities : IdentityAccess → Option String → AppState → Response E × AppState
  unfolding parse_names require
  list_identities has q s =
      require has admin_access (identities (list (parse_names q) s.identity_store), s) s

  unfoldable pub services_action :
      IdentityAccess
      → ServiceAction
      → List String
      → Option (Answer E)
      → AppState
      → Response E × AppState
  unfolding ask require
  services_action has action names a s =
      require has write_access (ask (services action names) answered a s) s

  unfoldable pub get_change :
      IdentityAccess → ℕ → Option (Answer E) → AppState → Response E × AppState
  unfolding ask first_change require
  get_change has id a s = require has read_access (ask (get_changes (some id)) first_change a s) s

  unfoldable pub get_logs :
      IdentityAccess → Option String → Option ℕ → AppState → Response E × AppState
  unfolding parse_names require
  get_logs has q n s =
      require has read_access (entries (tail (parse_names q) (get_or n 100) s.log_store), s) s

  unfoldable pub daemon_action : IdentityAccess → DaemonAction → AppState → Response E × AppState
  unfolding require
  daemon_action has action s =
      require has admin_access (done, record s { shutdown = s.shutdown ++ action ∷ [] }) s

  unfoldable pub add_identities :
      IdentityAccess → List (String × Identity) → AppState → Response E × AppState
  unfolding add_each require
  add_identities has specs s =
      require has admin_access (done, record s { identity_store = add_each specs s.identity_store })
        s

  unfoldable pub remove_identities : IdentityAccess → List String → AppState → Response E × AppState
  unfolding require
  remove_identities has names s =
      let (gone, store) = remove_all names s.identity_store in
      require has admin_access (removed gone, record s { identity_store = store }) s

  -- what a request comes to, by its path and method
  unfoldable pub router :
      IdentityAccess → Call → Option (Answer E) → AppState → Response E × AppState
  unfolding system_info get_metrics replan list_services list_checks list_alerts list_identities
      services_action get_change get_logs daemon_action add_identities remove_identities
  router has system_info_get a s = system_info a s
  router has metrics_get a s = get_metrics has s
  router has replan_post a s = replan has a s
  router has (services_get q) a s = list_services has q a s
  router has (checks_get q) a s = list_checks has q a s
  router has (alerts_get q) a s = list_alerts has q a s
  router has (identities_get q) a s = list_identities has q s
  router has (services_post action names) a s = services_action has action names a s
  router has (changes_get id) a s = get_change has id a s
  router has (logs_get q n) a s = get_logs has q n s
  router has (vigild_post action) a s = daemon_action has action s
  router has (identities_post specs) a s = add_identities has specs s
  router has (identities_delete names) a s = remove_identities has names s
