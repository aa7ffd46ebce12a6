-- ===== src/Api/Follow.antt =====
-- `follow_logs` of crates/vigild/src/api/handlers/logs.rs: what a follower is sent for what the broadcast gives. The JSON
-- text of an entry is an argument; the keep-alives and the framing of events are the library's.
use Prim.Native.String.{◌++◌}
use vigil_rs.Prelude.{
  ℕ, ◌||◌, Option, none, some, List, [], ◌∷◌, String, contains, is_empty, get_or, if◌then◌else◌,
}
use vigil_rs.Logs.{LogEntry}

pub data LogFormat : Type 0 where
  json text ndjson : LogFormat

-- an entry, or how many were skipped
pub data Broadcast : Type 0 where
  entry : LogEntry → Broadcast
  lagged : ℕ → Broadcast

-- a line of text, the data of an event, or the comment on skipped entries
pub data Frame : Type 0 where
  line data_of : String → Frame
  skipped : ℕ → Frame

module _ (to_string : LogEntry → String) where
  frame_of : LogFormat → LogEntry → Frame
  frame_of json e = data_of (to_string e)
  frame_of text e = data_of ("[" ++ e.service ++ "] " ++ e.message)
  frame_of ndjson e = line (to_string e ++ "\n")

  lag_of : LogFormat → ℕ → Option Frame
  lag_of ndjson n = none
  lag_of json n = some (skipped n)
  lag_of text n = some (skipped n)

  unfoldable pub frames : LogFormat → List String → List Broadcast → List Frame
  unfolding frame_of lag_of
  frames format services [] = []
  frames format services (lagged n ∷ rest) =
      let later = frames format services rest in
      elim (lag_of format n) [ none ↦ later | some frame ↦ frame ∷ later ]
  frames format services (entry e ∷ rest) =
      let later = frames format services rest in
      if is_empty services || contains services e.service then frame_of format e ∷ later else later

  -- The format is JSON where the request names none.
  unfoldable pub follow_logs : Option LogFormat → List String → List Broadcast → List Frame
  unfolding frames
  follow_logs format services received = frames (get_or format json) services received
