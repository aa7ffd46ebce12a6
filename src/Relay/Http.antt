-- ===== src/Relay/Http.antt =====
-- crates/vigil-log-relay/src/source_http/mod.rs: lines of a stream in ndjson or server-sent events, and the count of
-- failures. The channel takes a line, with its end, or is full.
use vigil_rs.Prelude.{
  ℕ, ◌+◌, Bool, true, false, not, ◌&&◌, ◌||◌, Option, none, some, List, [], ◌∷◌, ◌++◌, String, Text,
  codes, drop, length, is_empty, starts_with, starts_with_char, ltb, leb, ◌==◌, if◌then◌else◌,
}
use vigil_rs.Relay.Filter.{LineFilter, allow}

pub record ReconnectConfig : Type 0 where
  pub initial_delay_ms : ℕ
  pub max_delay_ms : ℕ
  pub max_retries : ℕ

pub record SourceConnConfig : Type 0 where
  pub connect_timeout_ms : ℕ
  pub read_timeout_ms : ℕ
  pub idle_timeout_ms : ℕ
  pub keepalive_interval_secs : ℕ
  pub keepalive_timeout_secs : ℕ
  pub source_insecure : Bool
  pub source_cacert : Option String
  pub proxy_url : Option String
  pub proxy_insecure : Bool
  pub proxy_cacert : Option String
  pub no_proxy : Option String

trim_spaces : Text → Text
trim_spaces [] = []
trim_spaces (c ∷ rest) = if c == b' ' then trim_spaces rest else c ∷ rest

-- the payload of a line that is not dropped for its form
unfoldable pub payload_of : Text → Text
unfolding starts_with trim_spaces
payload_of line =
    if starts_with line (codes "data:")
    then trim_spaces (drop (length (codes "data:")) line)
    else line

unfoldable pub is_metadata : Text → Bool
unfolding starts_with
is_metadata line =
    is_empty line
    || starts_with_char b':' line
    || starts_with line (codes "event:")
    || starts_with line (codes "id:")
    || starts_with line (codes "retry:")

-- What the channel gets; nothing if it has no room.
unfoldable pub forward_line : LineFilter → Bool → Text → List Text
unfolding payload_of is_metadata allow
forward_line filter has_room line =
    if is_metadata line
    then []
    else if is_empty (payload_of line)
    then []
    else if not (allow filter (payload_of line))
    then []
    else if has_room
    then (payload_of line ++ b'\n' ∷ []) ∷ []
    else []

-- What `next_line` gives: a line, with the room in the channel for it, the end, an error, or nothing in the idle time.
pub data Next : Type 0 where
  line : Text → Bool → Next
  eof error idle : Next

-- What was forwarded, and whether the stream ended cleanly.
unfoldable pub stream_loop : LineFilter → ℕ → List Next → List Text × Bool
unfolding forward_line
stream_loop filter idle_timeout_ms [] = ([], true)
stream_loop filter idle_timeout_ms (line l has_room ∷ rest) =
    let (sent, is_clean) = stream_loop filter idle_timeout_ms rest in
    (forward_line filter has_room l ++ sent, is_clean)
stream_loop filter idle_timeout_ms (eof ∷ rest) = ([], true)
stream_loop filter idle_timeout_ms (error ∷ rest) = ([], false)
stream_loop filter idle_timeout_ms (idle ∷ rest) =
    let later = stream_loop filter idle_timeout_ms rest in
    if ltb 0 idle_timeout_ms then ([], false) else later

-- The count after one more failure, or none if the source is given up.
unfoldable pub bump_failures : ℕ → ℕ → Option ℕ
bump_failures failures max_retries =
    if ltb 0 max_retries && leb max_retries (failures + 1) then none else some (failures + 1)
