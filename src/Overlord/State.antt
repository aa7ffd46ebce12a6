-- ===== src/Overlord/State.antt =====
-- `Overlord` of crates/vigild/src/overlord/mod.rs and its `svc_cmd` (lifecycle.rs). The actor of a
-- service stands in its entry, beside the snapshot of its state, which lags behind it until the
-- actor's event is handled. What the overlord sends is kept as a trace, newest first; the change
-- records stand in `Main`, the addresses and the metrics other than alert fires are left out.
use vigil_rs.Prelude.{
  ℕ, Option, none, some, List, ◌∷◌, String, Map, lookup, insert, Result, ok, err,
}
use vigil_rs.Plan.{Plan, Startup, CheckConfig}
use vigil_rs.Alert.{AlertSender, CheckStatus}
use vigil_rs.Service.{
  Actor, World, Reply, StartError, ServiceState, Input, start_cmd, stop_cmd, restart_cmd, step,
}

-- `SvcCmd`: the commands that are answered
pub data SvcCmd : Type 0 where
  start stop restart : SvcCmd

pub data Sent : Type 0 where
  command : String → SvcCmd → Sent
  shutdown_service : String → Sent
  shutdown_check : String → Sent
  spawn_check : String → CheckStatus → Sent
  alert_fire : String → Sent

pub record ServiceEntry (F : Type 0) : Type 0 where
  pub actor : Actor F
  pub state : ServiceState
  pub startup : Startup

pub record Overlord (F : Type 0) : Type 0 where
  pub plan : Plan F
  pub services : Map (ServiceEntry F)
  pub checks : Map CheckConfig
  pub alert_sender : AlertSender
  pub change_counter : ℕ
  pub pending_autostart : List String
  pub sent : List Sent

pub data SvcError : Type 0 where
  unknown_service : SvcError
  refused : StartError → SvcError

abbrev pub SvcReply : Type 0
SvcReply = Result SvcError (Unit {0})

-- The arm that the actor takes; the number is the process id that a spawn would give.
abbrev pub input_of : SvcCmd → Option ℕ → Input
input_of start spawned = start_cmd spawned
input_of stop spawned = stop_cmd
input_of restart spawned = restart_cmd spawned

abbrev pub reply_of : Reply → SvcReply
reply_of (ok u) = ok u
reply_of (err e) = err (refused e)

-- What the overlord takes from its surroundings: that of the actors, and the process ids that spawns
-- would give, by service.
pub record Host (F : Type 0) : Type 0 where
  pub world : World F
  pub spawned : String → Option ℕ

module _ {F : Type 0} where
  unfoldable pub note : Sent → Overlord F → Overlord F
  note event o = record o { sent = event ∷ o.sent }

  -- The actor answers the command before the overlord goes on.
  unfoldable pub command_entry :
      Host F → SvcCmd → String → ServiceEntry F → Overlord F → SvcReply × Overlord F
  unfolding note
  command_entry h cmd name entry o =
      let (reply, actor) = step h.world (input_of cmd (h.spawned name)) entry.actor in
      (
        reply_of reply,
        note (command name cmd)
            (record o { services = insert name (record entry { actor = actor }) o.services }),
      )

  unfoldable pub svc_cmd : Host F → SvcCmd → String → Overlord F → SvcReply × Overlord F
  unfolding command_entry
  svc_cmd h cmd name o = elim (lookup name o.services) [
    | none ↦ (err unknown_service, o)
    | some entry ↦ command_entry h cmd name entry o
  ]
