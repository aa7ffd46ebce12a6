-- ===== src/Reaper/Race.antt =====
-- The race for one child, `pid`, of crates/vigild/src/reaper.rs: its process, the reaper task between its `waitpid`
-- and its record, the record, and the task in `wait_child`, with the steps of each in any order.
-- Until the waiter is done, no other process has the id: the reaper collects others with other ids.
use vigil_rs.Prelude.{ℕ, ◌+◌, ◌≡◌, ◌≢◌, Option, none, some}
use vigil_rs.Reaper.{
  WaitStatus, Reaped, reaped_lookup, raw_of, record_reaped, take_reaped, look, Waited, status,
}

pub data Process : Type 0 where
  running gone : Process
  zombie : WaitStatus → Process

pub data Waiter : Type 0 where
  waiting : Waiter
  looking : ℕ → Waiter
  done : Waited → Waiter

pub record System : Type 0 where
  pub now : ℕ
  pub process : Process
  pub reaper : Option WaitStatus
  pub entries : Reaped
  pub waiter : Waiter

-- The steps, for a child `pid` that ends with `how`.
pub data Step (pid : ℕ) (how : WaitStatus) : System → System → Type 0 where
  elapse : (s : System) (d : ℕ) → Step pid how s (record s { now = s.now + d })
  ends : (s : System) → s.process ≡ running → Step pid how s (record s { process = zombie how })
  wait_wins :
      (s : System) (raw : ℕ)
      → s.process ≡ zombie how
      → s.waiter ≡ waiting
      → raw_of how ≡ some (pid, raw)
      → Step pid how s (record s { process = gone; waiter = done (status raw) })
  reap :
      (s : System)
      → s.process ≡ zombie how
      → s.reaper ≡ none
      → Step pid how s (record s { process = gone; reaper = some how })
  reap_other :
      (s : System) (other : WaitStatus) (p raw : ℕ)
      → s.reaper ≡ none
      → raw_of other ≡ some (p, raw)
      → p ≢ pid
      → Step pid how s (record s { reaper = some other })
  records :
      (s : System) (held : WaitStatus)
      → s.reaper ≡ some held
      → Step pid how s (record s { reaper = none; entries = record_reaped s.now held s.entries })
  wait_loses :
      (s : System)
      → s.process ≡ gone
      → s.waiter ≡ waiting
      → Step pid how s (record s { waiter = looking (s.now + reaped_lookup) })
  answers :
      (s : System) (deadline : ℕ) (answer : Waited)
      → s.waiter ≡ looking deadline
      → look pid deadline s.now s.entries ≡ some answer
      → Step pid how s (record s { entries = (take_reaped pid s.entries).1; waiter = done answer })

pub data Reach (pid : ℕ) (how : WaitStatus) (s : System) : System → Type 0 where
  here : Reach pid how s s
  later : {t u : System} → Reach pid how s t → Step pid how t u → Reach pid how s u
