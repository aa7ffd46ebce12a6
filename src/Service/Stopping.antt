-- ===== src/Service/Stopping.antt =====
-- Stopping and restarting a running service.
use vigil_rs.Prelude.{ℕ, ◌≡◌, Option, none, some, ok, arith, ◌∷◌, Option-cases, inl, inr}
use vigil_rs.Service.State.{inactive, active, backoff}
use vigil_rs.Service.Runtime.{Actor, World, Launch}
use vigil_rs.Service.Process.{prepare, kill_delay}
use vigil_rs.Service.Handlers.{
  Exit, handle_stop, handle_restart, handle_child_exit, handle_start, handle_backoff_expired,
}
use vigil_rs.Service.Loop.{
  start_cmd, stop_cmd, restart_cmd, child_exit, backoff_expired, step, IsEnabled,
}
use vigil_rs.Service.Settled.{IsSettled}

-- Nothing of the service runs, is timed or is pending, and nothing was started since `a`.
pub record IsDown {F : Type 0} (a b : Actor F) : Type 0 where
  pub state : b.state ≡ inactive
  pub child : b.child ≡ none
  pub timer : b.backoff_sleep ≡ none
  pub deadline : b.stop_deadline ≡ none
  pub launches : b.launches ≡ a.launches

module _ {F : Type 0} (w : World F) (a : Actor F) (settled : IsSettled a) where
  -- A stop of an active service is accepted and arms the kill deadline; when the child then exits,
  -- in whatever way, the service is down, and no process has been started.
  pub stop-exit-IsDown :
      (exit : Exit) (spawned : Option ℕ)
      → a.state ≡ active
      → let b = (step w stop_cmd a).1 in
        ((step w stop_cmd a).0 ≡ ok tt)
        × (b.stop_deadline ≡ some (kill_delay a.config))
        × IsEnabled (child_exit exit spawned) b
        × IsDown a (step w (child_exit exit spawned) b).1
  unfolding step handle_stop handle_child_exit
  stop-exit-IsDown exit spawned h = elim (Option-cases a.child) [
    | inl e ↦ absurd (ground arith)
    | inr (pid, e) ↦ (ground arith, ground arith, (pid, ground arith), ground arith)
  ]

  -- A restart of an active service that succeeds to spawn: when the child has exited the service is
  -- active again, with the new process as its child, one launch more, and no timer.
  pub restart-exit :
      (exit : Exit) (spawned : Option ℕ) (launch : Launch)
      → a.state ≡ active
      → prepare w a.config spawned ≡ ok launch
      → let b = (step w (restart_cmd none) a).1 in
        let c = (step w (child_exit exit spawned) b).1 in
        ((step w (restart_cmd none) a).0 ≡ ok tt)
        × IsEnabled (child_exit exit spawned) b
        × (c.state ≡ active)
        × (c.child ≡ some launch.pid)
        × (c.launches ≡ launch ∷ a.launches)
        × (c.backoff_sleep ≡ none)
        × (c.stop_deadline ≡ none)
  unfolding step handle_restart handle_child_exit
  restart-exit exit spawned launch h p = elim (Option-cases a.child) [
    | inl e ↦ absurd (ground arith)
    | inr (pid, e) ↦ (
      ground arith,
      (pid, ground arith),
      ground arith,
      ground arith,
      ground arith,
      ground arith,
      ground arith,
    )
  ]

  -- A stop that follows a restart, while the old process is still stopping, is accepted and undone:
  -- once that process has exited, the service runs again.
  pub restart-stop-exit :
      (exit : Exit) (spawned : Option ℕ) (launch : Launch)
      → a.state ≡ active
      → prepare w a.config spawned ≡ ok launch
      → let b = (step w (restart_cmd none) a).1 in
        let c = step w stop_cmd b in
        (c.0 ≡ ok tt)
        × ((step w (child_exit exit spawned) c.1).1.state ≡ active)
        × ((step w (child_exit exit spawned) c.1).1.child ≡ some launch.pid)
  unfolding step handle_restart handle_stop handle_child_exit
  restart-stop-exit exit spawned launch h p = ground arith

  -- A start of a service that waits in `backoff` does not end the wait: the timer then starts a
  -- second process, which takes the place of the first as the child, and the first is sent no
  -- signal and is in no later record of the actor but the list of launches.
  pub start-expiry-leaks :
      (first second : Option ℕ) (one two : Launch)
      → a.state ≡ backoff
      → prepare w a.config first ≡ ok one
      → prepare w a.config second ≡ ok two
      → let b = (step w (start_cmd first) a).1 in
        let c = (step w (backoff_expired second) b).1 in
        (b.state ≡ active)
        × (b.child ≡ some one.pid)
        × IsEnabled (backoff_expired second) b
        × (c.state ≡ active)
        × (c.child ≡ some two.pid)
        × (c.launches ≡ two ∷ one ∷ a.launches)
        × (c.kills ≡ a.kills)
  unfolding step handle_start handle_backoff_expired
  start-expiry-leaks first second one two h p q = elim (Option-cases a.backoff_sleep) [
    | inl e ↦ absurd (ground arith)
    | inr (delay, e) ↦ (
      ground arith,
      ground arith,
      (delay, ground arith),
      ground arith,
      ground arith,
      ground arith,
      ground arith,
    )
  ]
