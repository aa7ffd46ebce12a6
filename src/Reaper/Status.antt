-- ===== src/Reaper/Status.antt =====
-- A status that goes through the reaper's record is read as the kernel meant it.
use vigil_rs.Prelude.{
  ℕ, ◌+◌, ◌*◌, ◌<◌, ◌≡◌, Bool, refl, none, some, [], ◌∷◌, ◌==◌, arith, if◌then◌else◌, Bool-cases,
  inl, inr, keep,
}
use vigil_rs.Service.{Exit, exited, signalled}
use vigil_rs.Reaper.{
  WaitStatus, exited_with, killed_by, Reaped, forget, is_kept, raw_of, record_reaped, status_of,
  status, exit_of,
}

-- what the kernel reports: exit codes below 256, signals from 1 to 126
pub data IsReported : WaitStatus → Exit → ℕ → Type 0 where
  by_exit : (pid code : ℕ) → code < 256 → IsReported (exited_with pid code) (exited code) pid
  by_signal :
      (pid signal : ℕ) (core : Bool)
      → 0 < signal
      → signal < 127
      → IsReported (killed_by pid signal core) (signalled signal) pid

-- The record of other ids is left.
pub status_of-forget :
    (pid other : ℕ) (entries : Reaped)
    → status_of pid (forget other entries) ≡ (if other == pid then none else status_of pid entries)
unfolding status_of forget
status_of-forget pid other [] = ground arith
status_of-forget pid other (e ∷ rest) = ground (arith, status_of-forget pid other rest)

-- What is kept was there, and was recorded less than 60 s ago.
pub status_of-keep :
    (now pid : ℕ) (entries : Reaped)
    → status_of pid entries ≡ none
    → status_of pid (keep (is_kept now) entries) ≡ none
unfolding status_of
status_of-keep now pid [] h = refl
status_of-keep now pid (e ∷ rest) h = ground (arith, status_of-keep now pid rest)

-- A collected status comes back by the id of its child, as the exit code or the signal that the
-- kernel reported, whether the process dumped core or not, whatever was recorded before.
pub exit_of-record_reaped :
    (now : ℕ) (how : WaitStatus) (exit : Exit) (pid : ℕ) (entries : Reaped)
    → IsReported how exit pid
    → (raw : ℕ) × (status_of pid (record_reaped now how entries) ≡ some raw)
      × (exit_of (status raw) ≡ exit)
unfolding record_reaped status_of raw_of exit_of
exit_of-record_reaped now how exit pid entries (by_exit p code small) =
    (code * 256, ground arith, ground arith)
exit_of-record_reaped now how exit pid entries (by_signal p signal core low high) =
    elim (Bool-cases core) [
      | inl e ↦ (signal + 128, ground arith, ground arith)
      | inr e ↦ (signal, ground arith, ground arith)
    ]
