-- ===== src/Service/Policies.antt =====
-- What the exit of a process leads to, against the table of docs/user-guide/configuration.md.
use vigil_rs.Prelude.{
  ℕ, Bool, true, false, ◌≡◌, Option, none, some, List, [], ◌∷◌, arith, if◌then◌else◌,
}
use vigil_rs.Plan.{OnExit, restart, shutdown, failure_shutdown, success_shutdown}
use vigil_rs.Service.State.{ServiceState, inactive, backoff, error, is_stopping}
use vigil_rs.Service.Runtime.{Actor, World, Event, EventKind, daemon_shutdown}
use vigil_rs.Service.Backoff.{backoff_limit_exceeded}
use vigil_rs.Service.Handlers.{Exit, is_success, handle_child_exit}

abbrev shutdown_kind : EventKind → Option ℕ
shutdown_kind (daemon_shutdown code) = some code
shutdown_kind _ = none

-- the exit code that the last event asks the daemon for
abbrev pub requested_exit : List Event → Option ℕ
requested_exit [] = none
requested_exit (e ∷ events) = shutdown_kind e.kind

-- the column of the table for the daemon
abbrev pub documented_exit : Option OnExit → Bool → Option ℕ
documented_exit (some shutdown) true = some 0
documented_exit (some shutdown) false = some 10
documented_exit (some failure_shutdown) success = some 10
documented_exit (some success_shutdown) success = some 0
documented_exit _ _ = none

-- the column for the service
abbrev pub documented_state : Option OnExit → Bool → ServiceState
documented_state none exceeded = if exceeded then error else backoff
documented_state (some restart) exceeded = if exceeded then error else backoff
documented_state (some _) exceeded = inactive

module _ {F : Type 0} (w : World F) (a : Actor F) (exit : Exit) (spawned : Option ℕ) where
  abbrev pub policy : Option OnExit
  policy = if is_success exit then a.config.on_success else a.config.on_failure

  -- When the process of a service that is not being stopped exits, the policy for its kind of exit
  -- decides: the service goes to the documented state, or, past the limit of the backoff, to
  -- `error` in place of `backoff`; the daemon is asked to exit exactly with the documented code;
  -- the child is given up, and a restart is timed exactly in `backoff`, after the current delay.
  pub handle_child_exit-policy :
      is_stopping a.state ≡ false
      → a.backoff_sleep ≡ none
      → let b = handle_child_exit w exit spawned a in
        (b.state ≡ documented_state policy (backoff_limit_exceeded a))
        × (requested_exit b.events ≡ documented_exit policy (is_success exit))
        × (b.child ≡ none)
        × (b.launches ≡ a.launches)
        × (b.backoff_sleep
            ≡ elim b.state as (λ s. Option ℕ) [ backoff ↦ some a.current_backoff | _ ↦ none ])
  unfolding handle_child_exit
  handle_child_exit-policy running untimed =
      (ground arith, ground arith, ground arith, ground arith, ground arith)
