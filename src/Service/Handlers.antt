-- ===== src/Service/Handlers.antt =====
-- crates/vigild/src/service/actor/handlers.rs: the handlers of commands, of the child's exit and of
-- the two timers. A handler that may start a process takes what the spawn would answer.
use vigil_rs.Prelude.{ℕ, Bool, true, false, ◌||◌, Option, none, some, ok, err, ◌==◌, if◌then◌else◌}
use vigil_rs.Plan.{OnExit, restart, shutdown, failure_shutdown, success_shutdown, ignore}
use vigil_rs.Service.State.{
  ServiceState, inactive, starting, active, stopping, backoff, error, is_running, is_stopping,
}
use vigil_rs.Service.Runtime.{
  Actor, World, service_stopping, Reply, process_exited, daemon_shutdown, transition, send_event,
}
use vigil_rs.Service.Backoff.{next_backoff, reset_backoff, backoff_limit_exceeded}
use vigil_rs.Service.Process.{do_start, send_stop_signal, send_sigkill, kill_delay}

-- what `wait` answers about the child
pub data Exit : Type 0 where
  wait_failed : Exit
  exited : ℕ → Exit
  signalled : ℕ → Exit

abbrev pub is_success : Exit → Bool
is_success wait_failed = false
is_success (exited code) = code == 0
is_success (signalled n) = false

-- The daemon's exit code where the policy is to shut down: 0 after a success, 10 after a failure.
unfoldable pub shutdown_code : Bool → ℕ
shutdown_code success = if success then 0 else 10

module _ {F : Type 0} where
  -- The two arms behind `do_start` in `handle_start`.
  after_start : Reply × Actor F → Reply × Actor F
  after_start (ok u, a) = (ok u, record (reset_backoff a) { stop_deadline = none })
  after_start (err e, a) = (err e, transition error a)

  unfoldable pub handle_start : World F → Option ℕ → Actor F → Reply × Actor F
  unfolding after_start transition do_start reset_backoff
  handle_start w spawned a =
      if is_running a.state
      then (ok tt, a)
      else if is_stopping a.state
      then (err service_stopping, a)
      else after_start (do_start w spawned (transition starting a))

  -- The stop signal, the state and the deadline.
  begin_stop : World F → Actor F → Actor F
  unfolding transition send_stop_signal kill_delay
  begin_stop w a =
      let b = transition stopping (send_stop_signal w a) in
      record b { stop_deadline = some (kill_delay a.config) }

  stop_in : ServiceState → World F → Actor F → Reply × Actor F
  unfolding begin_stop
  stop_in inactive w a = (ok tt, a)
  stop_in error w a = (ok tt, a)
  stop_in stopping w a = (ok tt, a)
  stop_in backoff w a = (ok tt, transition inactive (record a { backoff_sleep = none }))
  stop_in starting w a = (ok tt, begin_stop w a)
  stop_in active w a = (ok tt, begin_stop w a)

  unfoldable pub handle_stop : World F → Actor F → Reply × Actor F
  unfolding stop_in
  handle_stop w a = stop_in a.state w a

  unfoldable pub handle_restart : World F → Option ℕ → Actor F → Reply × Actor F
  unfolding begin_stop handle_start
  handle_restart w spawned a =
      if is_running a.state || is_stopping a.state
      then (ok tt, record (begin_stop w a) { backoff_sleep = none; pending_restart = true })
      else handle_start w spawned a

  -- `Ok(()) => self.reset_backoff()` and the error arm, after a restart that was pending
  after_restart : Reply × Actor F → Actor F
  unfolding reset_backoff transition
  after_restart (ok u, a) = reset_backoff a
  after_restart (err e, a) = transition error a

  exit_while_stopping : World F → Option ℕ → Actor F → Actor F
  unfolding transition do_start after_restart
  exit_while_stopping w spawned a =
      let b = transition inactive a in
      if b.pending_restart
      then after_restart
          (do_start w spawned (transition starting (record b { pending_restart = false })))
      else b

  go_down : ℕ → Actor F → Actor F
  unfolding transition send_event
  go_down code a = send_event (daemon_shutdown code) (transition inactive a)

  schedule_restart : World F → Actor F → Actor F
  unfolding transition next_backoff backoff_limit_exceeded
  schedule_restart w a =
      if backoff_limit_exceeded a
      then transition error a
      else (let (delay, b) = next_backoff w a in
          record (transition backoff b) { backoff_sleep = some delay })

  apply_policy : World F → Option OnExit → Bool → Actor F → Actor F
  unfolding go_down schedule_restart transition shutdown_code
  apply_policy w (some ignore) success a = transition inactive a
  apply_policy w (some shutdown) success a = go_down (shutdown_code success) a
  apply_policy w (some failure_shutdown) success a = go_down 10 a
  apply_policy w (some success_shutdown) success a = go_down 0 a
  apply_policy w (some restart) success a = schedule_restart w a
  apply_policy w none success a = schedule_restart w a

  unfoldable pub handle_child_exit : World F → Exit → Option ℕ → Actor F → Actor F
  unfolding send_event exit_while_stopping apply_policy
  handle_child_exit w exit spawned a =
      let success = is_success exit in
      let b = record (send_event (process_exited success) a) {
        child = none;
        stop_deadline = none;
      } in
      if is_stopping a.state
      then exit_while_stopping w spawned b
      else apply_policy w (if success then a.config.on_success else a.config.on_failure) success b

  unfoldable pub handle_kill_deadline : World F → Actor F → Actor F
  unfolding send_sigkill
  handle_kill_deadline w a = send_sigkill w a

  -- The two arms behind `do_start` in `handle_backoff_expired`.
  after_backoff : Reply × Actor F → Actor F
  unfolding transition
  after_backoff (ok u, a) = a
  after_backoff (err e, a) = transition error a

  unfoldable pub handle_backoff_expired : World F → Option ℕ → Actor F → Actor F
  unfolding after_backoff transition do_start
  handle_backoff_expired w spawned a =
      record (after_backoff (do_start w spawned (transition starting a))) { stop_deadline = none }

  -- The child, if any, is asked to stop, killed and waited for.
  unfoldable pub cleanup : World F → Actor F → Actor F
  unfolding send_stop_signal send_sigkill
  cleanup w a = record (send_sigkill w (send_stop_signal w a)) { child = none }
