-- ===== src/Reaper/Examples.antt =====
-- Runs of crates/vigild/src/reaper.rs: child 7 ends with code 3 and the reaper is first.
use vigil_rs.Prelude.{ℕ, ◌*◌, ◌≡◌, true, refl, none, some, [], ◌∷◌, ◌++◌, leb, if◌then◌else◌, arith}
use vigil_rs.Service.{exited}
use vigil_rs.Reaper.{
  WaitStatus, exited_with, killed_by, collected, still_alive, Reaped, raw_of, record_reaped,
  reap_children, forget, status_of, look, Waited, status, echild, exit_of, wait_child,
}
use vigil_rs.Reaper.Race.{
  System, Reach, gone, done, here, later, ends, reap, records, wait_loses, answers, elapse,
}
use vigil_rs.Reaper.Status.{exit_of-record_reaped, by_exit}
use vigil_rs.Reaper.Recovered.{begin, begin-Reach-own}
use vigil_rs.Reaper.Deadline.{wait_child_ends, wait_child-recovers}

abbrev how : WaitStatus
how = exited_with 7 3

abbrev recorded : Reaped
recorded = record { pid = 7; at = 30; raw = 768 } ∷ []

reap_children_test :
    reap_children
      ((10, collected (killed_by 9 11 true)) ∷ (30, collected how) ∷ (31, still_alive) ∷ [])
      []
    ≡ recorded ++ record { pid = 9; at = 10; raw = 139 } ∷ []
unfolding reap_children record_reaped raw_of forget
reap_children_test = refl

exit_of-record_reaped_example :
    (raw : ℕ) × (status_of 7 (record_reaped 30 how recorded) ≡ some raw)
    × (exit_of (status raw) ≡ exited 3)
exit_of-record_reaped_example =
    exit_of-record_reaped 30 how (exited 3) 7 recorded (by_exit 7 3 (omega arith))

abbrev clock : ℕ → ℕ
clock i = 5 * i

abbrev table : ℕ → Reaped
table t = if leb 30 t then recorded else []

wait_child_ends_example :
    (answer : Waited) × (wait_child clock (λ t. []) 41 (some 7) echild ≡ some answer)
wait_child_ends_example = wait_child_ends clock (λ t. []) (λ i. omega arith) (some 7) echild

table_status : (t : ℕ) → status_of 7 (table t) ≡ (if leb 30 t then some 768 else none)
unfolding status_of
table_status t = ground arith

wait_child-recovers_example : wait_child clock table 41 (some 7) echild ≡ some (status 768)
wait_child-recovers_example =
    wait_child-recovers clock table (λ i. omega arith) 7 30 768 (omega arith)
      (λ i. table_status (clock i))

abbrev final : System
final = record { now = 20; process = gone; reaper = none; entries = []; waiter = done (status 768) }

race : Reach 7 how (begin 0 []) final
unfolding begin look status_of record_reaped raw_of forget
race =
    later
      (later
        (later
          (later (later (later here (ends _ refl)) (reap _ refl refl)) (wait_loses _ refl refl))
          (elapse _ 20))
        (records _ how refl))
      (answers _ 200 (status 768) refl refl)

begin-Reach-own_example : ◌≡◌ {A = ℕ} 768 768
unfolding raw_of status_of
begin-Reach-own_example = begin-Reach-own {s = final} 0 [] refl refl race 768 refl
