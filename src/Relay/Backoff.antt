-- ===== src/Relay/Backoff.antt =====
-- How long the sink sleeps between connects.
use vigil_rs.Prelude.{
  ℕ, ◌≤◌, ◌≡◌, max, refl, Bool, true, false, List, [], ◌∷◌, ◌++◌, All, Text, arith, Option-cases,
  inl, inr, ltb, Bool-cases,
}
use vigil_rs.Relay.Sink.{
  SinkConfig, Received, line, closed, idle, Phase, connecting, connected, returned, Sink, Happening,
  start, connect, write, receive, round, step, run,
}

abbrev pub limit : SinkConfig → ℕ
limit cfg = max cfg.reconnect_delay_ms cfg.reconnect_max_ms

record IsBounded (cfg : SinkConfig) (s : Sink) : Type 0 where
  next : s.backoff ≤ limit cfg
  sleeps : All (λ d. d ≤ limit cfg) s.slept

All-snoc : (P : ℕ → Type 0) (ds : List ℕ) (d : ℕ) → All P ds → P d → All P (ds ++ d ∷ [])
All-snoc P [] d h p = (p, tt)
All-snoc P (x ∷ ds) d h p = (h.0, All-snoc P ds d h.1 p)

connect-IsBounded :
    (cfg : SinkConfig) (ok : Bool) (s : Sink) → IsBounded cfg s → IsBounded cfg (connect cfg ok s)
unfolding connect
connect-IsBounded cfg true s b = record { next = ground arith; sleeps = b.sleeps }
connect-IsBounded cfg false s b = record {
  next = ground arith;
  sleeps = All-snoc (λ d. d ≤ limit cfg) s.slept s.backoff b.sleeps b.next;
}

write-IsBounded :
    (cfg : SinkConfig) (done : Bool) (l : Text) (s : Sink)
    → IsBounded cfg s
    → IsBounded cfg (write done l s)
unfolding write
write-IsBounded cfg true l s b = record { next = b.next; sleeps = b.sleeps }
write-IsBounded cfg false l s b = record { next = b.next; sleeps = b.sleeps }

receive-IsBounded :
    (cfg : SinkConfig) (received : Received) (done : Bool) (s : Sink)
    → IsBounded cfg s
    → IsBounded cfg (receive cfg received done s)
unfolding receive
receive-IsBounded cfg (line l) done s b =
    write-IsBounded cfg done l (record s { taken = s.taken ++ l ∷ [] })
      (record { next = b.next; sleeps = b.sleeps })
receive-IsBounded cfg closed done s b = record { next = b.next; sleeps = b.sleeps }
receive-IsBounded cfg idle done s b = elim (Bool-cases (ltb 0 cfg.idle_timeout_ms)) [
  | inl t ↦ rw t (record { next = b.next; sleeps = b.sleeps })
  | inr t ↦ rw t b
]

round-IsBounded :
    (cfg : SinkConfig) (received : Received) (done : Bool) (s : Sink)
    → IsBounded cfg s
    → IsBounded cfg (round cfg received done s)
unfolding round
round-IsBounded cfg received done s b = elim (Option-cases s.pending) [
  | inl e ↦ rw (round, e) (receive-IsBounded cfg received done s b)
  | inr (l, e) ↦ rw (round, e) (write-IsBounded cfg done l s b)
]

step-IsBounded :
    (cfg : SinkConfig) (h : Happening) (s : Sink) → IsBounded cfg s → IsBounded cfg (step cfg h s)
unfolding step
step-IsBounded cfg h s b = go s.phase refl
  where
    go : (phase : Phase) → s.phase ≡ phase → IsBounded cfg (step cfg h s)
    go connecting e = rw (step, e) (connect-IsBounded cfg h.is_connected s b)
    go connected e = rw (step, e) (round-IsBounded cfg h.received h.is_written s b)
    go returned e = rw (step, e) b

run-IsBounded :
    (cfg : SinkConfig) (happenings : List Happening) (s : Sink)
    → IsBounded cfg s
    → IsBounded cfg (run cfg happenings s)
unfolding run
run-IsBounded cfg [] s b = b
run-IsBounded cfg (h ∷ rest) s b = run-IsBounded cfg rest (step cfg h s) (step-IsBounded cfg h s b)

-- No sleep before a connect is longer than the larger of the initial delay and the ceiling, however
-- often the connect fails.
pub run-start-slept :
    (cfg : SinkConfig) (happenings : List Happening)
    → All (λ d. d ≤ limit cfg) (run cfg happenings (start cfg)).slept
unfolding start
run-start-slept cfg happenings =
    (run-IsBounded cfg happenings (start cfg) (record { next = ground arith; sleeps = tt })).sleeps
