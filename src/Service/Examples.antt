-- ===== src/Service/Examples.antt =====
-- The theorems on service actors at concrete actors.
use Prim.Native.Nat.{ℕ}
use vigil_rs.Prelude.{
  true, false, ◌<◌, ◌≤◌, ◌+◌, ◌^◌, min, ◌≡◌, refl, Option, none, some, List, [], ◌∷◌, codes, ok,
  arith, inl,
}
use vigil_rs.Plan.Samples.{sample_service}
use vigil_rs.Service.Samples.{world}
use vigil_rs.Plan.{ServiceConfig}
use vigil_rs.Credentials.{resolve_credentials, apply_credentials}
use vigil_rs.Command.{parse_command}
use vigil_rs.Service.State.{active, inactive, backoff, error}
use vigil_rs.Service.Runtime.{Actor, Launch, new}
use vigil_rs.Service.Backoff.{limit, scaled}
use vigil_rs.Service.Process.{prepare, kill_delay}
use vigil_rs.Service.Handlers.{exited, handle_start, handle_child_exit}
use vigil_rs.Service.Loop.{
  step, start_cmd, stop_cmd, restart_cmd, child_exit, backoff_expired, IsEnabled, here, next,
}
use vigil_rs.Duration.{parse_duration}
use vigil_rs.Service.Stopping.{
  IsDown, stop-exit-IsDown, restart-exit, restart-stop-exit, start-expiry-leaks,
}
use vigil_rs.Service.Policies.{requested_exit, handle_child_exit-policy}
use vigil_rs.Service.CrashLoop.{crash_loop, crash_loop-error_state}
use vigil_rs.Service.Settled.{IsSettled, new-IsSettled, step-IsSettled, new-Reach-IsSettled}

abbrev config : ServiceConfig ℕ
config = sample_service

abbrev fresh : Actor ℕ
fresh = new "app" config

abbrev launch_of : ℕ → Launch
launch_of pid = record {
  pid = pid;
  argv = codes "/bin/app" ∷ codes "-v" ∷ [];
  environment = [];
  working_dir = none;
  credentials = none;
  captured = true;
}

prepares : (pid : ℕ) → prepare world config (some pid) ≡ ok (launch_of pid)
unfolding prepare parse_command resolve_credentials apply_credentials
prepares pid = refl

-- the service after a start, and after its process has failed once
abbrev running : Actor ℕ
running = (step world (start_cmd (some 7)) fresh).1

abbrev waiting : Actor ℕ
waiting = (step world (child_exit (exited 1) none) running).1

fresh-IsSettled : IsSettled fresh
fresh-IsSettled = new-IsSettled "app" config

running-active : running.state ≡ active
unfolding step handle_start prepare parse_command resolve_credentials apply_credentials new
running-active = refl

running-IsSettled : IsSettled running
unfolding new
running-IsSettled = step-IsSettled world (start_cmd (some 7)) fresh fresh-IsSettled tt refl

waiting-backoff : waiting.state ≡ backoff
unfolding step handle_start handle_child_exit prepare parse_command resolve_credentials
    apply_credentials new
waiting-backoff = refl

waiting-config : waiting.config ≡ config
unfolding step handle_start handle_child_exit prepare parse_command resolve_credentials
    apply_credentials new
waiting-config = refl

running-config : running.config ≡ config
unfolding step handle_start prepare parse_command resolve_credentials apply_credentials new
running-config = refl

running-child : running.child ≡ some 7
unfolding step handle_start prepare parse_command resolve_credentials apply_credentials new
running-child = refl

waiting-IsSettled : IsSettled waiting
waiting-IsSettled =
    step-IsSettled world (child_exit (exited 1) none) running running-IsSettled (7, running-child)
      refl

step-IsSettled_example : IsSettled (step world (start_cmd (some 7)) fresh).1
unfolding new
step-IsSettled_example = step-IsSettled world (start_cmd (some 7)) fresh fresh-IsSettled tt refl

new-Reach-IsSettled_example : IsSettled running
unfolding new
new-Reach-IsSettled_example =
    new-Reach-IsSettled "app" config (next (start_cmd (some 7)) here tt) (tt, refl)

stop-exit-IsDown_example :
    let b = (step world stop_cmd running).1 in
    ((step world stop_cmd running).0 ≡ ok tt)
    × (b.stop_deadline ≡ some (kill_delay running.config))
    × IsEnabled (child_exit (exited 0) none) b
    × IsDown running (step world (child_exit (exited 0) none) b).1
stop-exit-IsDown_example =
    stop-exit-IsDown world running running-IsSettled (exited 0) none running-active

restart-exit_example :
    let b = (step world (restart_cmd none) running).1 in
    let c = (step world (child_exit (exited 0) (some 9)) b).1 in
    ((step world (restart_cmd none) running).0 ≡ ok tt)
    × IsEnabled (child_exit (exited 0) (some 9)) b
    × (c.state ≡ active)
    × (c.child ≡ some 9)
    × (c.launches ≡ launch_of 9 ∷ running.launches)
    × (c.backoff_sleep ≡ none)
    × (c.stop_deadline ≡ none)
restart-exit_example =
    restart-exit world running running-IsSettled (exited 0) (some 9) (launch_of 9) running-active
      (rw running-config (prepares 9))

restart-stop-exit_example :
    let b = (step world (restart_cmd none) running).1 in
    let c = step world stop_cmd b in
    (c.0 ≡ ok tt)
    × ((step world (child_exit (exited 0) (some 9)) c.1).1.state ≡ active)
    × ((step world (child_exit (exited 0) (some 9)) c.1).1.child ≡ some 9)
restart-stop-exit_example =
    restart-stop-exit world running running-IsSettled (exited 0) (some 9) (launch_of 9)
      running-active (rw running-config (prepares 9))

start-expiry-leaks_example :
    let b = (step world (start_cmd (some 8)) waiting).1 in
    let c = (step world (backoff_expired (some 9)) b).1 in
    (b.state ≡ active)
    × (b.child ≡ some 8)
    × IsEnabled (backoff_expired (some 9)) b
    × (c.state ≡ active)
    × (c.child ≡ some 9)
    × (c.launches ≡ launch_of 9 ∷ launch_of 8 ∷ waiting.launches)
    × (c.kills ≡ waiting.kills)
start-expiry-leaks_example =
    start-expiry-leaks world waiting waiting-IsSettled (some 8) (some 9) (launch_of 8) (launch_of 9)
      waiting-backoff (rw waiting-config (prepares 8)) (rw waiting-config (prepares 9))

-- an actor that is active, with no timer
abbrev at_work : ServiceConfig ℕ → Actor ℕ
at_work c = record {
  name = "app";
  config = c;
  state = active;
  child = some 7;
  backoff_count = 0;
  current_backoff = 1;
  backoff_sleep = none;
  stop_deadline = none;
  pending_restart = false;
  events = [];
  kills = [];
  launches = [];
  active_gauge = true;
  start_count = 1;
}

handle_child_exit-policy_example :
    let b = handle_child_exit world (exited 0) none (at_work config) in
    (b.state ≡ inactive)
    × (requested_exit b.events ≡ some 0)
    × (b.child ≡ none)
    × (b.launches ≡ [])
    × (b.backoff_sleep ≡ elim b.state as (λ s. Option ℕ) [ backoff ↦ some 1 | _ ↦ none ])
handle_child_exit-policy_example =
    handle_child_exit-policy world (at_work config) (exited 0) none refl refl

abbrev impatient : ServiceConfig ℕ
impatient = record config { backoff_limit = some (codes "3ms") }

abbrev five_spawns : List (Option ℕ)
five_spawns = some 1 ∷ some 2 ∷ none ∷ some 4 ∷ some 5 ∷ []

impatient-limit : limit impatient ≡ 3
unfolding limit parse_duration
impatient-limit = refl

doubles : (m : ℕ) → 0 < m → m < 2 ^ 64 → min (m + 1) (limit impatient) ≤ scaled world m 2
unfolding scaled
doubles m h k = rw impatient-limit (omega arith)

crash_loop-error_state_example : (crash_loop world five_spawns (at_work impatient)).state ≡ error
crash_loop-error_state_example =
    crash_loop-error_state world (at_work impatient) five_spawns refl (inl refl) (omega arith)
      (omega arith) doubles (rw impatient-limit (omega arith)) (omega arith)
