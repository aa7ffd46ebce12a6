-- ===== src/Service/Fixed.antt =====
-- What no round of the loop changes: the configuration that the actor was made with.
use vigil_rs.Prelude.{ℕ, ◌≡◌, refl, Option, arith, String}
use vigil_rs.Plan.{Signal, ServiceConfig}
use vigil_rs.Service.Process.{send_signal}
use vigil_rs.Service.Runtime.{Actor, World, new}
use vigil_rs.Service.Handlers.{
  Exit, handle_start, handle_stop, handle_restart, handle_child_exit, handle_kill_deadline,
  handle_backoff_expired, cleanup,
}
use vigil_rs.Service.Loop.{
  Input, start_cmd, stop_cmd, restart_cmd, status_cmd, forward_signal, child_exit, kill_deadline,
  backoff_expired, step,
}

module _ {F : Type 0} (w : World F) (a : Actor F) where
  config-handle_start : (spawned : Option ℕ) → (handle_start w spawned a).1.config ≡ a.config
  unfolding handle_start
  config-handle_start spawned = ground arith

  config-handle_stop : (handle_stop w a).1.config ≡ a.config
  unfolding handle_stop
  config-handle_stop = ground arith

  config-handle_restart : (spawned : Option ℕ) → (handle_restart w spawned a).1.config ≡ a.config
  unfolding handle_restart
  config-handle_restart spawned = ground arith

  config-handle_child_exit :
      (exit : Exit) (spawned : Option ℕ) → (handle_child_exit w exit spawned a).config ≡ a.config
  unfolding handle_child_exit
  config-handle_child_exit exit spawned = ground arith

  config-handle_kill_deadline : (handle_kill_deadline w a).config ≡ a.config
  unfolding handle_kill_deadline
  config-handle_kill_deadline = ground arith

  config-handle_backoff_expired :
      (spawned : Option ℕ) → (handle_backoff_expired w spawned a).config ≡ a.config
  unfolding handle_backoff_expired
  config-handle_backoff_expired spawned = ground arith

  config-send_signal : (s : Signal) → (send_signal w s a).config ≡ a.config
  unfolding send_signal
  config-send_signal s = ground arith

pub config-step :
    {F : Type 0} (w : World F) (input : Input) (a : Actor F) → (step w input a).1.config ≡ a.config
unfolding step
config-step w (start_cmd spawned) a = config-handle_start w a spawned
config-step w stop_cmd a = config-handle_stop w a
config-step w (restart_cmd spawned) a = config-handle_restart w a spawned
config-step w status_cmd a = refl
config-step w (forward_signal s) a = config-send_signal w a s
config-step w (child_exit exit spawned) a = config-handle_child_exit w a exit spawned
config-step w kill_deadline a = config-handle_kill_deadline w a
config-step w (backoff_expired spawned) a = config-handle_backoff_expired w a spawned

pub config-new : {F : Type 0} (name : String) (c : ServiceConfig F) → (new name c).config ≡ c
unfolding new
config-new name c = refl

pub config-cleanup : {F : Type 0} (w : World F) (a : Actor F) → (cleanup w a).config ≡ a.config
unfolding cleanup
config-cleanup w a = ground arith
