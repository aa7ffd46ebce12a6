-- ===== src/Relay/Sink.antt =====
-- `run` of crates/vigil-log-relay/src/tcp_sink.rs. What the network and the channel do is an argument, one
-- happening after the other: a connection made or not, and then for each round a line or the end
-- of the channel or the idle time, and whether the line is written.
use vigil_rs.Prelude.{
  ℕ, ◌*◌, min, Bool, true, false, Option, none, some, List, [], ◌∷◌, ◌++◌, Text, ltb, ◌==◌,
  if◌then◌else◌,
}

pub record SinkConfig : Type 0 where
  pub connect_timeout_ms : ℕ
  pub write_timeout_ms : ℕ
  pub idle_timeout_ms : ℕ
  pub keepalive_interval_secs : ℕ
  pub keepalive_timeout_secs : ℕ
  pub reconnect_delay_ms : ℕ
  pub reconnect_max_ms : ℕ

-- What the receiver of the channel gives: a line, its end, or nothing within the idle time.
pub data Received : Type 0 where
  line : Text → Received
  closed idle : Received

-- Where the loops stand: before a connect, in the inner loop, or returned.
pub data Phase : Type 0 where
  connecting connected returned : Phase

-- The locals of `run`, what it took from the channel and what it wrote in full, the oldest first, and its sleeps.
pub record Sink : Type 0 where
  pub phase : Phase
  pub backoff : ℕ
  pub pending : Option Text
  pub taken : List Text
  pub written : List Text
  pub slept : List ℕ

unfoldable pub start : SinkConfig → Sink
start cfg = record {
  phase = connecting;
  backoff = cfg.reconnect_delay_ms;
  pending = none;
  taken = [];
  written = [];
  slept = [];
}

-- A connect, which fails also when its time is over.
unfoldable pub connect : SinkConfig → Bool → Sink → Sink
connect cfg true s = record s { phase = connected; backoff = cfg.reconnect_delay_ms }
connect cfg false s = record s {
  backoff = min (s.backoff * 2) cfg.reconnect_max_ms;
  slept = s.slept ++ s.backoff ∷ [];
}

-- A write of a line: an error or the end of its time keeps the line for the next connection.
unfoldable pub write : Bool → Text → Sink → Sink
write true l s = record s { pending = none; written = s.written ++ l ∷ [] }
write false l s = record s { pending = some l; phase = connecting }

-- without an idle time the receiver is never given up
unfoldable pub receive : SinkConfig → Received → Bool → Sink → Sink
unfolding write
receive cfg (line l) done s = write done l (record s { taken = s.taken ++ l ∷ [] })
receive cfg closed done s = record s { phase = returned }
receive cfg idle done s = if ltb 0 cfg.idle_timeout_ms then record s { phase = connecting } else s

-- A round of the inner loop: the line that failed before, or the next one.
unfoldable pub round : SinkConfig → Received → Bool → Sink → Sink
unfolding receive write
round cfg received done s = elim s.pending [
  | some l ↦ write done l s
  | none ↦ receive cfg received done s
]

-- What happens next: the result of a connect, or what is received and whether a write is done.
pub record Happening : Type 0 where
  pub is_connected : Bool
  pub received : Received
  pub is_written : Bool

unfoldable pub step : SinkConfig → Happening → Sink → Sink
unfolding connect round
step cfg h s = elim s.phase [
  | connecting ↦ connect cfg h.is_connected s
  | connected ↦ round cfg h.received h.is_written s
  | returned ↦ s
]

unfoldable pub run : SinkConfig → List Happening → Sink → Sink
unfolding step
run cfg [] s = s
run cfg (h ∷ rest) s = run cfg rest (step cfg h s)

-- `apply_keepalive`: the time before the first probe, the time between probes and their number, if any are set.
unfoldable pub apply_keepalive : SinkConfig → Option (ℕ × ℕ × ℕ)
apply_keepalive cfg =
    if cfg.keepalive_interval_secs == 0
    then none
    else some (
      if ltb 0 cfg.keepalive_timeout_secs
          then cfg.keepalive_timeout_secs
          else cfg.keepalive_interval_secs * 3,
      cfg.keepalive_interval_secs,
      3,
    )
