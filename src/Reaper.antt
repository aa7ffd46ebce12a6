-- ===== src/Reaper.antt =====
-- crates/vigild/src/reaper.rs: the statuses that the reaper collects, and the wait for a child that
-- takes its status from there when the reaper came first. A raw wait status is the number that
-- `ExitStatus::from_raw` takes. Times are in milliseconds. Process ids are below 2 ^ 31, where `pid as i32` keeps them.
mod Race
mod Status
mod Recovered
mod Deadline
mod Examples
use vigil_rs.Prelude.{
  ℕ, zero, suc, ◌+◌, ◌-◌, ◌*◌, ◌/◌, ◌%◌, Bool, true, false, Option, none, some, List, [], ◌∷◌, keep,
  ltb, leb, ◌==◌, if◌then◌else◌, map,
}
use vigil_rs.Service.{Exit, exited, signalled, wait_failed}

-- what `waitpid` tells of a child: its id and how it ended
pub data WaitStatus : Type 0 where
  exited_with : ℕ → ℕ → WaitStatus
  killed_by : ℕ → ℕ → Bool → WaitStatus
  not_ended : ℕ → WaitStatus

-- The answers of `waitpid`: a status, no change yet, `ECHILD`, or another error.
pub data WaitAnswer : Type 0 where
  collected : WaitStatus → WaitAnswer
  still_alive no_children failed : WaitAnswer

pub record Entry : Type 0 where
  pub pid : ℕ
  pub at : ℕ
  pub raw : ℕ

abbrev pub Reaped : Type 0
Reaped = List Entry

abbrev pub reaped_keep : ℕ
reaped_keep = 60_000

abbrev pub reaped_lookup : ℕ
reaped_lookup = 200

-- `signal | 0x80`
set_core : ℕ → ℕ
set_core signal = if ltb (signal % 256) 128 then signal + 128 else signal

unfoldable pub raw_of : WaitStatus → Option (ℕ × ℕ)
unfolding set_core
raw_of (exited_with pid code) = some (pid, code % 256 * 256)
raw_of (killed_by pid signal core) = some (pid, if core then set_core signal else signal)
raw_of (not_ended pid) = none

-- `HashMap::remove` and `insert`
unfoldable pub forget : ℕ → Reaped → Reaped
forget pid entries = keep (λ e. if e.pid == pid then false else true) entries

unfoldable pub is_kept : ℕ → Entry → Bool
is_kept now e = ltb (now - e.at) reaped_keep

record_raw : ℕ → Option (ℕ × ℕ) → Reaped → Reaped
unfolding forget is_kept
record_raw now none entries = entries
record_raw now (some (pid, raw)) entries =
    record { pid = pid; at = now; raw = raw } ∷ forget pid (keep (is_kept now) entries)

unfoldable pub record_reaped : ℕ → WaitStatus → Reaped → Reaped
unfolding record_raw raw_of
record_reaped now status entries = record_raw now (raw_of status) entries

-- The loop of `reap_children` on the answers of `waitpid`, each with the time of its record.
unfoldable pub reap_children : List (ℕ × WaitAnswer) → Reaped → Reaped
unfolding record_reaped
reap_children [] entries = entries
reap_children ((now, collected status) ∷ rest) entries =
    reap_children rest (record_reaped now status entries)
reap_children ((now, still_alive) ∷ rest) entries = entries
reap_children ((now, no_children) ∷ rest) entries = entries
reap_children ((now, failed) ∷ rest) entries = entries

unfoldable pub status_of : ℕ → Reaped → Option ℕ
status_of pid [] = none
status_of pid (e ∷ rest) = if e.pid == pid then some e.raw else status_of pid rest

unfoldable pub take_reaped : ℕ → Reaped → Option ℕ × Reaped
unfolding status_of forget
take_reaped pid entries = (status_of pid entries, forget pid entries)

-- The answers of `Child::wait`: a raw status, `ECHILD`, or another error.
pub data Waited : Type 0 where
  status : ℕ → Waited
  echild other_error : Waited

-- One round of the loop behind `ECHILD`: the answer, or none if it sleeps and looks again.
round : ℕ → ℕ → Option ℕ → Option Waited
round deadline now (some raw) = some (status raw)
round deadline now none = if leb deadline now then some echild else none

unfoldable pub look : ℕ → ℕ → ℕ → Reaped → Option Waited
unfolding round take_reaped
look pid deadline now entries = round deadline now (take_reaped pid entries).0

-- The loop, with the time of round `i` and the record of the statuses at that time; `left` rounds at most.
unfoldable pub look_up : (ℕ → ℕ) → (ℕ → Reaped) → ℕ → ℕ → ℕ → ℕ → Option Waited
unfolding look
look_up clock table pid deadline i zero = none
look_up clock table pid deadline i (suc left) =
    elim (look pid deadline (clock i) (table (clock i))) [
      | some answer ↦ some answer
      | none ↦ look_up clock table pid deadline (suc i) left
    ]

-- `wait_child`: what `Child::wait` answered, unless that is `ECHILD` for a child with an id.
unfoldable pub wait_child : (ℕ → ℕ) → (ℕ → Reaped) → ℕ → Option ℕ → Waited → Option Waited
unfolding look_up
wait_child clock table rounds id (status raw) = some (status raw)
wait_child clock table rounds id other_error = some other_error
wait_child clock table rounds none echild = some echild
wait_child clock table rounds (some pid) echild =
    look_up clock table pid (clock 0 + reaped_lookup) 0 rounds

-- `ExitStatus::code` and `signal` of a raw status, as the actor reads them.
unfoldable pub exit_of : Waited → Exit
exit_of (status raw) = if raw % 128 == 0 then exited (raw / 256 % 256) else signalled (raw % 128)
exit_of echild = wait_failed
exit_of other_error = wait_failed
