-- ===== src/Service/Settled.antt =====
-- What holds of a service actor between two rounds of its loop.
use vigil_rs.Prelude.{
  ℕ, Bool, true, false, ◌||◌, ◌≡◌, ◌≢◌, Option, none, some, is_some, arith, String,
}
use vigil_rs.Plan.{ServiceConfig, Signal}
use vigil_rs.Service.Process.{send_signal}
use vigil_rs.Service.State.{ServiceState, starting, stopping, backoff, is_active, is_stopping}
use vigil_rs.Service.Runtime.{Actor, World, new}
use vigil_rs.Service.Handlers.{
  Exit, handle_start, handle_stop, handle_restart, handle_child_exit, handle_kill_deadline,
  handle_backoff_expired,
}
use vigil_rs.Service.Loop.{
  Input, start_cmd, stop_cmd, restart_cmd, status_cmd, forward_signal, child_exit, kill_deadline,
  backoff_expired, step, IsEnabled, Reach, here, next,
}

abbrev pub is_backoff : ServiceState → Bool
is_backoff backoff = true
is_backoff _ = false

-- There is a child exactly while the service is active or stopping, and a restart is timed exactly
-- in `backoff`; a deadline or a pending restart is there only while stopping.
pub record IsSettled {F : Type 0} (a : Actor F) : Type 0 where
  pub not_starting : a.state ≢ starting
  pub child_iff : is_some a.child ≡ (is_active a.state || is_stopping a.state)
  pub timer_iff : is_some a.backoff_sleep ≡ is_backoff a.state
  pub deadline : is_some a.stop_deadline ≡ true → a.state ≡ stopping
  pub pending : a.pending_restart ≡ true → a.state ≡ stopping
  pub gauge : a.active_gauge ≡ is_active a.state

-- A start, or a restart, comes in while the service waits in `backoff`.
abbrev pub starts_in_backoff : {F : Type 0} → Input → Actor F → Bool
starts_in_backoff (start_cmd spawned) a = is_backoff a.state
starts_in_backoff (restart_cmd spawned) a = is_backoff a.state
starts_in_backoff _ a = false

module _ {F : Type 0} (w : World F) (a : Actor F) (settled : IsSettled a) where
  handle_stop-IsSettled : IsSettled (handle_stop w a).1
  unfolding handle_stop
  handle_stop-IsSettled = ground arith

  handle_start-IsSettled :
      (spawned : Option ℕ) → is_backoff a.state ≡ false → IsSettled (handle_start w spawned a).1
  unfolding handle_start
  handle_start-IsSettled spawned h = ground arith

  handle_restart-IsSettled :
      (spawned : Option ℕ) → is_backoff a.state ≡ false → IsSettled (handle_restart w spawned a).1
  unfolding handle_restart
  handle_restart-IsSettled spawned h = ground arith

  handle_child_exit-IsSettled :
      (exit : Exit) (spawned : Option ℕ) {pid : ℕ}
      → a.child ≡ some pid
      → IsSettled (handle_child_exit w exit spawned a)
  unfolding handle_child_exit
  handle_child_exit-IsSettled exit spawned h = ground arith

  handle_kill_deadline-IsSettled :
      IsSettled (record (handle_kill_deadline w a) { stop_deadline = none })
  unfolding handle_kill_deadline
  handle_kill_deadline-IsSettled = ground arith

  handle_backoff_expired-IsSettled :
      (spawned : Option ℕ) {delay : ℕ}
      → a.backoff_sleep ≡ some delay
      → IsSettled (record (handle_backoff_expired w spawned a) { backoff_sleep = none })
  unfolding handle_backoff_expired
  handle_backoff_expired-IsSettled spawned h = ground arith

  send_signal-IsSettled : (s : Signal) → IsSettled (send_signal w s a)
  unfolding send_signal
  send_signal-IsSettled s = ground arith

pub new-IsSettled :
    {F : Type 0} (name : String) (config : ServiceConfig F) → IsSettled (new name config)
unfolding new
new-IsSettled name config = ground arith

-- Every round of the loop keeps a settled actor settled, unless it takes a start or a restart
-- while the service waits in `backoff`.
pub step-IsSettled :
    {F : Type 0} (w : World F) (input : Input) (a : Actor F)
    → IsSettled a
    → IsEnabled input a
    → starts_in_backoff input a ≡ false
    → IsSettled (step w input a).1
unfolding step
step-IsSettled w (start_cmd spawned) a s e h = handle_start-IsSettled w a s spawned h
step-IsSettled w stop_cmd a s e h = handle_stop-IsSettled w a s
step-IsSettled w (restart_cmd spawned) a s e h = handle_restart-IsSettled w a s spawned h
step-IsSettled w status_cmd a s e h = s
step-IsSettled w (forward_signal sig) a s e h = send_signal-IsSettled w a s sig
step-IsSettled w (child_exit exit spawned) a s e h =
    handle_child_exit-IsSettled w a s exit spawned e.1
step-IsSettled w kill_deadline a s e h = handle_kill_deadline-IsSettled w a s
step-IsSettled w (backoff_expired spawned) a s e h =
    handle_backoff_expired-IsSettled w a s spawned e.1

-- No round of the run took a start or a restart in `backoff`.
abbrev pub IsCalm : {F : Type 0} {w : World F} {first a : Actor F} → Reach w first a → Type 0
IsCalm here = Unit {0}
IsCalm (next {a} input r e) = IsCalm r × (starts_in_backoff input a ≡ false)

Reach-IsSettled :
    {F : Type 0} {w : World F} {first a : Actor F} (r : Reach w first a)
    → IsSettled first
    → IsCalm r
    → IsSettled a
Reach-IsSettled here s calm = s
Reach-IsSettled {w = w} (next {a} input r e) s calm =
    step-IsSettled w input a (Reach-IsSettled r s calm.0) e calm.1

-- A new actor stays settled in every run of the loop that takes no start or restart in `backoff`.
pub new-Reach-IsSettled :
    {F : Type 0} {w : World F} {a : Actor F} (name : String) (config : ServiceConfig F)
    (r : Reach w (new name config) a)
    → IsCalm r
    → IsSettled a
new-Reach-IsSettled name config r calm = Reach-IsSettled r (new-IsSettled name config) calm
