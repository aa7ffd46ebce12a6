-- ===== src/Reaper/Recovered.antt =====
-- What the waiter of a child gets, in every order of the steps of the race.
use vigil_rs.Prelude.{
  ℕ, ◌≡◌, Bool, true, false, not, ◌||◌, ◌==◌, refl, Option, none, some, [], ◌∷◌, all, keep,
  if◌then◌else◌, arith,
}
use vigil_rs.Reaper.{
  WaitStatus, Entry, Reaped, raw_of, is_kept, forget, record_raw, record_reaped, take_reaped,
  status_of, look, status,
}
use vigil_rs.Reaper.Race.{
  running, waiting, done, System, Step, Reach, elapse, ends, wait_wins, reap, reap_other, records,
  wait_loses, answers, here, later,
}

-- an entry that is the child's, if it has its id
is_own : ℕ → ℕ → Entry → Bool
is_own pid raw e = not (e.pid == pid) || e.raw == raw

all-keep :
    (p q : Entry → Bool) (entries : Reaped) → all p entries ≡ true → all p (keep q entries) ≡ true
all-keep p q [] h = refl
all-keep p q (e ∷ rest) h = ground (arith, all-keep p q rest)

own_status :
    (pid raw r : ℕ) (entries : Reaped)
    → all (is_own pid raw) entries ≡ true
    → status_of pid entries ≡ some r
    → r ≡ raw
unfolding is_own status_of
own_status pid raw r [] h e = cc
own_status pid raw r (x ∷ rest) h e = ground (arith, own_status pid raw r rest)

own-record_raw :
    (now pid raw : ℕ) (held : Option (ℕ × ℕ)) (entries : Reaped)
    → ((r : ℕ) → held ≡ some (pid, r) → r ≡ raw)
    → all (is_own pid raw) entries ≡ true
    → all (is_own pid raw) (record_raw now held entries) ≡ true
unfolding record_raw forget
own-record_raw now pid raw none entries own h = h
own-record_raw now pid raw (some (p, r)) entries own h =
    let kept = all-keep (is_own pid raw) (is_kept now) entries h in
    let others =
      all-keep (is_own pid raw) (λ e. if e.pid == p then false else true)
        (keep (is_kept now) entries) kept in
    unfold is_own in ground (arith, own r, others)

record IsTrue (pid raw : ℕ) (s : System) : Type 0 where
  entries_own : all (is_own pid raw) s.entries ≡ true
  held_own :
      (held : WaitStatus) → s.reaper ≡ some held → (r : ℕ) → raw_of held ≡ some (pid, r) → r ≡ raw
  answer_own : (r : ℕ) → s.waiter ≡ done (status r) → r ≡ raw

own-look :
    (pid raw deadline now : ℕ) (entries : Reaped) (r : ℕ)
    → all (is_own pid raw) entries ≡ true
    → look pid deadline now entries ≡ some (status r)
    → r ≡ raw
unfolding look
own-look pid raw deadline now entries r h e = ground (arith, own_status pid raw r entries)

Step-IsTrue :
    {pid raw : ℕ} {how : WaitStatus} {s t : System}
    → raw_of how ≡ some (pid, raw)
    → Step pid how s t
    → IsTrue pid raw s
    → IsTrue pid raw t
Step-IsTrue r (elapse s d) h = record {
  entries_own = h.entries_own;
  held_own = h.held_own;
  answer_own = h.answer_own;
}
Step-IsTrue r (ends s e) h = record {
  entries_own = h.entries_own;
  held_own = h.held_own;
  answer_own = h.answer_own;
}
Step-IsTrue r (wait_wins s raw e w q) h = record {
  entries_own = h.entries_own;
  held_own = h.held_own;
  answer_own = λ x y. cc (r, q, y);
}
Step-IsTrue r (reap s e w) h = record {
  entries_own = h.entries_own;
  held_own = λ held y x z. cc (r, y, z);
  answer_own = h.answer_own;
}
Step-IsTrue r (reap_other s other p x e q n) h = record {
  entries_own = h.entries_own;
  held_own = λ held y z w. absurd (n (cc (y, q, w)));
  answer_own = h.answer_own;
}
Step-IsTrue {pid} {raw} r (records s held e) h =
    unfold record_reaped in
    record {
      entries_own =
          own-record_raw s.now pid raw (raw_of held) s.entries (h.held_own held e) h.entries_own;
      held_own = λ held y z w. cc;
      answer_own = h.answer_own;
    }
Step-IsTrue r (wait_loses s e w) h = record {
  entries_own = h.entries_own;
  held_own = h.held_own;
  answer_own = λ x y. cc;
}
Step-IsTrue {pid} {raw} r (answers s deadline answer w e) h =
    unfold take_reaped forget in
    record {
      entries_own =
          all-keep (is_own pid raw) (λ e. if e.pid == pid then false else true) s.entries
            h.entries_own;
      held_own = h.held_own;
      answer_own = λ x y. own-look pid raw deadline s.now s.entries x h.entries_own (cc (e, y));
    }

none-own :
    (pid raw : ℕ) (entries : Reaped)
    → status_of pid entries ≡ none
    → all (is_own pid raw) entries ≡ true
unfolding status_of is_own
none-own pid raw [] h = refl
none-own pid raw (e ∷ rest) h = ground (arith, none-own pid raw rest)

Reach-IsTrue :
    {pid raw : ℕ} {how : WaitStatus} {s t : System}
    → raw_of how ≡ some (pid, raw)
    → Reach pid how s t
    → IsTrue pid raw s
    → IsTrue pid raw t
Reach-IsTrue r here h = h
Reach-IsTrue r (later path step) h = Step-IsTrue r step (Reach-IsTrue r path h)

-- The race begins: the child runs, the reaper is idle, the waiter waits.
unfoldable pub begin : ℕ → Reaped → System
begin now entries = record {
  now = now;
  process = running;
  reaper = none;
  entries = entries;
  waiter = waiting;
}

-- In every order of the steps, with as much time between them as may be, a status that the waiter is given is that of
-- its own child, whether its own wait collected the child or the reaper, where no status was recorded under the
-- child's id before and no other process has the id meanwhile.
pub begin-Reach-own :
    {pid raw : ℕ} {how : WaitStatus} {s : System} (now : ℕ) (entries : Reaped)
    → raw_of how ≡ some (pid, raw)
    → status_of pid entries ≡ none
    → Reach pid how (begin now entries) s
    → (r : ℕ) → s.waiter ≡ done (status r)
    → r ≡ raw
unfolding begin
begin-Reach-own {pid} {raw} now entries r fresh path =
    (Reach-IsTrue r path (record {
      entries_own = none-own pid raw entries fresh;
      held_own = λ held y. cc;
      answer_own = λ x y. cc;
    })).answer_own
