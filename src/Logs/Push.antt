-- ===== src/Logs/Push.antt =====
-- The push of a service's lines to a socket: crates/vigild/src/logs/push.rs. Whether a connection is made and what it
-- takes are arguments, as is the JSON text of an entry. The two kinds of socket differ in the connection only.
use vigil_rs.Prelude.{
  ℕ, ◌*◌, ◌≤◌, min, Bool, true, false, List, [], ◌∷◌, ◌++◌, String, Text, str_eq, if◌then◌else◌,
  arith, All,
}
use vigil_rs.Logs.Store.{LogEntry}

-- what the receiver of the broadcast gives: an entry, with the answer of the socket if it is written,
-- or that some were missed, or the end
pub data Received : Type 0 where
  entry : LogEntry → Bool → Received
  lagged closed : Received

-- `true` of the loop where the channel is closed, `false` where the connection is lost
pub data PushEnd : Type 0 where
  shut_down lost waiting : PushEnd

pub record Pushed : Type 0 where
  pub lines : List Text
  pub ended : PushEnd

pub data Attempt : Type 0 where
  refused : Attempt
  connected : List Received → Attempt

-- the lines of all connections, the sleeps between them, and the end
pub record Pushes : Type 0 where
  pub lines : List Text
  pub slept : List ℕ
  pub is_over : Bool

abbrev pub first_backoff : ℕ
first_backoff = 500

module _ (to_string : LogEntry → Text) (service : String) where
  line_of : LogEntry → Text
  line_of e = to_string e ++ b'\n' ∷ []

  and_line : Text → Pushed → Pushed
  and_line l p = record p { lines = l ∷ p.lines }

  -- Where nothing more has come, the loop waits.
  unfoldable pub push_loop : List Received → Pushed
  unfolding line_of and_line
  push_loop [] = record { lines = []; ended = waiting }
  push_loop (closed ∷ rest) = record { lines = []; ended = shut_down }
  push_loop (lagged ∷ rest) = push_loop rest
  push_loop (entry e is_written ∷ rest) =
      let later = push_loop rest in
      if str_eq e.service service
      then if is_written then and_line (line_of e) later else record { lines = []; ended = lost }
      else later

  then_pushes : List Text → ℕ → Pushes → Pushes
  then_pushes ls delay p = record {
    lines = ls ++ p.lines;
    slept = delay ∷ p.slept;
    is_over = p.is_over;
  }

  after_push : PushEnd → List Text → Pushes → Pushes
  unfolding then_pushes
  after_push shut_down ls later = record { lines = ls; slept = []; is_over = true }
  after_push waiting ls later = record { lines = ls; slept = []; is_over = false }
  after_push lost ls later = then_pushes ls first_backoff later

  -- The loop with the present delay; a connection sets it back.
  unfoldable pub spawn_push : ℕ → List Attempt → Pushes
  unfolding push_loop after_push then_pushes
  spawn_push backoff [] = record { lines = []; slept = []; is_over = false }
  spawn_push backoff (refused ∷ rest) =
      then_pushes [] backoff (spawn_push (min (backoff * 2) 30_000) rest)
  spawn_push backoff (connected received ∷ rest) =
      let p = push_loop received in
      after_push p.ended p.lines (spawn_push (min (first_backoff * 2) 30_000) rest)

  after_push-slept :
      (ended : PushEnd) (ls : List Text) (later : Pushes)
      → All (λ d. d ≤ 30_000) later.slept
      → All (λ d. d ≤ 30_000) (after_push ended ls later).slept
  unfolding after_push then_pushes
  after_push-slept shut_down ls later h = tt
  after_push-slept waiting ls later h = tt
  after_push-slept lost ls later h = (omega arith, h)

  -- No sleep is longer than thirty seconds.
  spawn_push-slept :
      (backoff : ℕ) (attempts : List Attempt)
      → backoff ≤ 30_000
      → All (λ d. d ≤ 30_000) (spawn_push backoff attempts).slept
  unfolding spawn_push then_pushes
  spawn_push-slept backoff [] h = tt
  spawn_push-slept backoff (refused ∷ rest) h =
      (h, spawn_push-slept (min (backoff * 2) 30_000) rest (ground arith))
  spawn_push-slept backoff (connected received ∷ rest) h =
      let p = push_loop received in
      after_push-slept p.ended p.lines (spawn_push (min (first_backoff * 2) 30_000) rest)
        (spawn_push-slept (min (first_backoff * 2) 30_000) rest (ground arith))
