-- ===== src/Relay/Lines.antt =====
-- No line is lost, and none overtakes another, whatever the network does.
use mathlib.Core.List.{append-nil}
use vigil_rs.Prelude.{
  ltb, ◌≡◌, refl, sym, ◌∙◌, ap, Bool, true, false, Option, none, some, List, [], ◌∷◌, ◌++◌, Text,
  Bool-cases, Option-cases, inl, inr,
}
use vigil_rs.Relay.Sink.{
  SinkConfig, Received, line, closed, idle, Phase, connecting, connected, returned, Sink, Happening,
  start, connect, write, receive, round, step, run,
}

-- the lines that wait for the next connection
abbrev pub waiting : Option Text → List Text
waiting none = []
waiting (some l) = l ∷ []

-- What was taken from the channel is what was written, and after it what waits; nothing waits at the end.
record IsComplete (s : Sink) : Type 0 where
  lines : s.taken ≡ s.written ++ waiting s.pending
  at_end : s.phase ≡ returned → s.pending ≡ none

write-IsComplete :
    (done : Bool) (l : Text) (s : Sink)
    → s.taken ≡ s.written ++ l ∷ []
    → s.phase ≡ connected
    → IsComplete (write done l s)
unfolding write
write-IsComplete true l s h p = record {
  lines = h ∙ sym (append-nil (s.written ++ l ∷ []));
  at_end = λ e. refl;
}
write-IsComplete false l s h p = record { lines = h; at_end = λ e. cc }

receive-IsComplete :
    (cfg : SinkConfig) (received : Received) (done : Bool) (s : Sink)
    → s.phase ≡ connected
    → s.pending ≡ none
    → IsComplete s
    → IsComplete (receive cfg received done s)
unfolding receive
receive-IsComplete cfg (line l) done s p e i =
    write-IsComplete done l (record s { taken = s.taken ++ l ∷ [] })
      (ap (λ ls. ls ++ l ∷ [])
        (i.lines ∙ ap (λ w. s.written ++ waiting w) e ∙ append-nil s.written))
      p
receive-IsComplete cfg closed done s p e i = record { lines = i.lines; at_end = λ q. e }
receive-IsComplete cfg idle done s p e i = elim (Bool-cases (ltb 0 cfg.idle_timeout_ms)) [
  | inl t ↦ rw t (record { lines = i.lines; at_end = λ q. cc })
  | inr t ↦ rw t i
]

round-IsComplete :
    (cfg : SinkConfig) (received : Received) (done : Bool) (s : Sink)
    → s.phase ≡ connected
    → IsComplete s
    → IsComplete (round cfg received done s)
unfolding round
round-IsComplete cfg received done s p i = elim (Option-cases s.pending) [
  | inl e ↦ rw (round, e) (receive-IsComplete cfg received done s p e i)
  | inr (l, e) ↦
      rw (round, e) (write-IsComplete done l s (i.lines ∙ ap (λ w. s.written ++ waiting w) e) p)
]

connect-IsComplete :
    (cfg : SinkConfig) (ok : Bool) (s : Sink)
    → s.phase ≡ connecting
    → IsComplete s
    → IsComplete (connect cfg ok s)
unfolding connect
connect-IsComplete cfg true s p i = record { lines = i.lines; at_end = λ e. cc }
connect-IsComplete cfg false s p i = record { lines = i.lines; at_end = λ e. cc }

step-IsComplete :
    (cfg : SinkConfig) (h : Happening) (s : Sink) → IsComplete s → IsComplete (step cfg h s)
unfolding step
step-IsComplete cfg h s i = go s.phase refl
  where
    go : (phase : Phase) → s.phase ≡ phase → IsComplete (step cfg h s)
    go connecting e = rw (step, e) (connect-IsComplete cfg h.is_connected s e i)
    go connected e = rw (step, e) (round-IsComplete cfg h.received h.is_written s e i)
    go returned e = rw (step, e) i

run-IsComplete :
    (cfg : SinkConfig) (happenings : List Happening) (s : Sink)
    → IsComplete s
    → IsComplete (run cfg happenings s)
unfolding run
run-IsComplete cfg [] s i = i
run-IsComplete cfg (h ∷ rest) s i =
    run-IsComplete cfg rest (step cfg h s) (step-IsComplete cfg h s i)

-- Whatever connections, writes and waits do, the lines that were taken from the channel are those
-- that were written, in their order and each once, and at most one more that waits for the next
-- connection; where the sink has returned, all that it took was written.
pub run-start-lines :
    (cfg : SinkConfig) (happenings : List Happening)
    → let s : Sink = run cfg happenings (start cfg) in
      (s.taken ≡ s.written ++ waiting s.pending) × (s.phase ≡ returned → s.taken ≡ s.written)
unfolding start
run-start-lines cfg happenings =
    let i =
      run-IsComplete cfg happenings (start cfg) (record { lines = refl; at_end = λ e. refl }) in
    (
      i.lines,
      λ e.
          i.lines
          ∙ ap (λ w. (run cfg happenings (start cfg)).written ++ waiting w) (i.at_end e)
          ∙ append-nil _,
    )
