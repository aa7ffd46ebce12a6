-- ===== src/Service/Process.antt =====
-- crates/vigild/src/service/actor/spawn.rs and signals.rs.
use vigil_rs.Prelude.{
  ℕ, ◌+◌, Bool, true, false, Option, none, some, List, [], ◌∷◌, Text, Result, ok, err, ◌>>=◌,
  get_or, ok_or,
}
use vigil_rs.Command.{parse_command}
use vigil_rs.Command.Words.{CommandError}
use vigil_rs.Credentials.{Credentials, CredentialError, resolve_credentials, apply_credentials}
use vigil_rs.Plan.{ServiceConfig, Signal, LogsForward, forwarded, internal, passthrough}
use vigil_rs.Service.State.{active}
use vigil_rs.Service.Runtime.{
  Actor, World, Launch, Target, group, process, delivered, refused, StartError, no_command,
  empty_command, spawn_failed, bad_command, bad_credentials, Reply, default_kill_delay, sigterm,
  sigkill, transition,
}
use vigil_rs.Service.Backoff.{parsed}

abbrev lift_command : Result CommandError (List Text) → Result StartError (List Text)
lift_command (ok argv) = ok argv
lift_command (err e) = err (bad_command e)

abbrev lift_credentials :
    Result CredentialError (Option Credentials) → Result StartError (Option Credentials)
lift_credentials (ok c) = ok c
lift_credentials (err e) = err (bad_credentials e)

abbrev not_empty : List Text → Result StartError (List Text)
not_empty [] = err empty_command
not_empty (arg ∷ args) = ok (arg ∷ args)

-- `log_mode != Passthrough`
abbrev is_captured : LogsForward → Bool
is_captured forwarded = true
is_captured internal = true
is_captured passthrough = false

module _ {F : Type 0} where
  -- What `do_start` settles before and by the spawn. The last argument is what the spawn answers,
  -- the process id or nothing.
  unfoldable pub prepare : World F → ServiceConfig F → Option ℕ → Result StartError Launch
  prepare w c spawned = do
    cmd_str ← ok_or c.command no_command
    parsed_argv ← lift_command (parse_command cmd_str)
    argv ← not_empty parsed_argv
    creds ← lift_credentials (resolve_credentials w.accounts c.user c.user_id c.group c.group_id)
    pid ← ok_or spawned spawn_failed
    ok (record {
      pid = pid;
      argv = argv;
      environment = c.environment;
      working_dir = c.working_dir;
      credentials = apply_credentials w.accounts creds;
      captured = is_captured (get_or c.logs_forward forwarded);
    })

  started : Launch → Actor F → Actor F
  unfolding transition
  started launch a = transition active (record a {
    child = some launch.pid;
    launches = launch ∷ a.launches;
    start_count = a.start_count + 1;
  })

  start_with : Result StartError Launch → Actor F → Reply × Actor F
  unfolding started
  start_with (ok launch) a = (ok tt, started launch a)
  start_with (err e) a = (err e, a)

  unfoldable pub do_start : World F → Option ℕ → Actor F → Reply × Actor F
  unfolding start_with
  do_start w spawned a = start_with (prepare w a.config spawned) a

  unfoldable pub stop_signal : ServiceConfig F → Signal
  stop_signal c = get_or c.stop_signal sigterm

  unfoldable pub kill_delay : ServiceConfig F → ℕ
  unfolding parsed
  kill_delay c = get_or (parsed c.kill_delay) default_kill_delay

  log_kill : Target → Signal → Actor F → Actor F
  log_kill t s a = record a { kills = record { target = t; signal = s } ∷ a.kills }

  -- The group first, and the process itself if that fails.
  kill_group : World F → Signal → ℕ → Actor F → Actor F
  unfolding log_kill
  kill_group w s pid a = elim (w.kill (group pid) s) [
    | delivered ↦ log_kill (group pid) s a
    | _ ↦ log_kill (process pid) s (log_kill (group pid) s a)
  ]

  -- Here a group that is gone is no failure.
  sigkill_group : World F → ℕ → Actor F → Actor F
  unfolding log_kill
  sigkill_group w pid a = elim (w.kill (group pid) sigkill) [
    | refused ↦ log_kill (process pid) sigkill (log_kill (group pid) sigkill a)
    | _ ↦ log_kill (group pid) sigkill a
  ]

  to_child : Option ℕ → (ℕ → Actor F → Actor F) → Actor F → Actor F
  to_child none send a = a
  to_child (some pid) send a = send pid a

  unfoldable pub send_signal : World F → Signal → Actor F → Actor F
  unfolding kill_group to_child
  send_signal w s a = to_child a.child (kill_group w s) a

  unfoldable pub send_stop_signal : World F → Actor F → Actor F
  unfolding send_signal stop_signal
  send_stop_signal w a = send_signal w (stop_signal a.config) a

  unfoldable pub send_sigkill : World F → Actor F → Actor F
  unfolding sigkill_group to_child
  send_sigkill w a = to_child a.child (sigkill_group w) a
