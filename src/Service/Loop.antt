-- ===== src/Service/Loop.antt =====
-- The loop of crates/vigild/src/service/actor/mod.rs: one round takes a command, the child's exit or
-- the end of a timer. The loop polls the child, the deadline and the backoff only if they are there.
use vigil_rs.Prelude.{ℕ, Option, none, some, ok, ◌≡◌}
use vigil_rs.Plan.{Signal}
use vigil_rs.Service.Runtime.{Actor, World, Reply}
use vigil_rs.Service.Process.{send_signal}
use vigil_rs.Service.Handlers.{
  Exit, handle_start, handle_stop, handle_restart, handle_child_exit, handle_kill_deadline,
  handle_backoff_expired,
}

-- An arm of the `select!` that goes on with the loop. A `Status` command changes nothing; the
-- number beside an arm that may spawn is the process id, if the spawn succeeds.
pub data Input : Type 0 where
  start_cmd : Option ℕ → Input
  stop_cmd : Input
  restart_cmd : Option ℕ → Input
  status_cmd : Input
  forward_signal : Signal → Input
  child_exit : Exit → Option ℕ → Input
  kill_deadline : Input
  backoff_expired : Option ℕ → Input

module _ {F : Type 0} where
  unfoldable pub step : World F → Input → Actor F → Reply × Actor F
  step w (start_cmd spawned) a = handle_start w spawned a
  step w stop_cmd a = handle_stop w a
  step w (restart_cmd spawned) a = handle_restart w spawned a
  step w status_cmd a = (ok tt, a)
  step w (forward_signal s) a = (ok tt, send_signal w s a)
  step w (child_exit exit spawned) a = (ok tt, handle_child_exit w exit spawned a)
  step w kill_deadline a = (ok tt, record (handle_kill_deadline w a) { stop_deadline = none })
  step w (backoff_expired spawned) a =
      (ok tt, record (handle_backoff_expired w spawned a) { backoff_sleep = none })

  -- The arm can be taken.
  abbrev pub IsEnabled : Input → Actor F → Type 0
  IsEnabled (child_exit exit spawned) a = (pid : ℕ) × (a.child ≡ some pid)
  IsEnabled kill_deadline a = (delay : ℕ) × (a.stop_deadline ≡ some delay)
  IsEnabled (backoff_expired spawned) a = (delay : ℕ) × (a.backoff_sleep ≡ some delay)
  IsEnabled _ a = Unit {0}

  -- The states that the loop passes through.
  pub data Reach (w : World F) (first : Actor F) : Actor F → Type 0 where
    here : Reach w first first
    next :
        {a : Actor F} (input : Input)
        → Reach w first a
        → IsEnabled input a
        → Reach w first (step w input a).1
