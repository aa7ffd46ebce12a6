-- ===== src/Relay/Stream.antt =====
-- `log_url`, `stream_pod` and the tasks of `try_start` of crates/vigil-log-relay/src/source_k8s/stream.rs. What the API
-- server sends is an argument; so is, for each line, whether the channel has room for it. Texts are
-- compared by their characters, which for the timestamps of Kubernetes is their order in bytes.
use vigil_rs.Prelude.{
  before, ℕ, Bool, not, Option, none, some, List, [], ◌∷◌, ◌++◌, Text, codes, is_empty, ltb,
  if◌then◌else◌,
}
use vigil_rs.NoProxy.Strings.{split_once}
use vigil_rs.Relay.Filter.{LineFilter, allow}

pub record LogEntry : Type 0 where
  pub timestamp : Text
  pub namespace : Text
  pub pod : Text
  pub container : Option Text
  pub stream : Text
  pub message : Text

-- `<=` of `str`
unfoldable pub not_after : Text → Text → Bool
unfolding before
not_after s t = not (before t s)

-- the timestamp and the message of a line: what is before its first space, and what follows
split_line : Text → Option (Text × Text) → Text × Text
split_line line none = (line, [])
split_line line (some parts) = parts

unfoldable pub parts_of : Text → Text × Text
unfolding split_line split_once
parts_of line = split_line line (split_once b' ' line)

-- What is the same for all lines of a stream.
pub record Origin : Type 0 where
  pub namespace : Text
  pub pod : Text
  pub container : Option Text
  pub stream : Text

unfoldable pub entry_of : Origin → Text → Text → LogEntry
entry_of o ts msg = record {
  timestamp = ts;
  namespace = o.namespace;
  pod = o.pod;
  container = o.container;
  stream = o.stream;
  message = msg;
}

-- The last time that counts, and the entries sent, the oldest first.
pub record Reader : Type 0 where
  pub last_ts : Text
  pub sent : List LogEntry

unfoldable pub new_reader : Reader
new_reader = record { last_ts = []; sent = [] }

-- The time counts also if the channel is full and the line is dropped.
unfoldable pub accept : Origin → Text → Text → Bool → Reader → Reader
unfolding entry_of
accept o ts msg has_room r = record {
  last_ts = ts;
  sent = if has_room then r.sent ++ entry_of o ts msg ∷ [] else r.sent;
}

unfoldable pub read_parts : Origin → LineFilter → Text × Text → Bool → Reader → Reader
unfolding not_after allow accept
read_parts o filter (ts, msg) has_room r =
    if not_after ts r.last_ts
    then r
    else if not (allow filter msg)
    then r
    else accept o ts msg has_room r

unfoldable pub read_line : Origin → LineFilter → Text → Bool → Reader → Reader
unfolding parts_of read_parts
read_line o filter line has_room r = read_parts o filter (parts_of line) has_room r

-- What `next_line` gives: a line, with the room in the channel for it, the end of the stream, or an error.
pub data Next : Type 0 where
  line : Text → Bool → Next
  eof error : Next

unfoldable pub stream_pod : Origin → LineFilter → List Next → Reader → Reader
unfolding read_line
stream_pod o filter [] r = r
stream_pod o filter (line l has_room ∷ rest) r =
    stream_pod o filter rest (read_line o filter l has_room r)
stream_pod o filter (eof ∷ rest) r = r
stream_pod o filter (error ∷ rest) r = r

-- the streams of one task: one each for stdout and stderr, or one for both
unfoldable pub streams : Bool → List (Option Text × Text)
streams use_stream_param =
    if use_stream_param
    then (some (codes "Stdout"), codes "stdout") ∷ (some (codes "Stderr"), codes "stderr") ∷ []
    else (none, codes "output") ∷ []

-- with how a number is printed
module _ (digits : ℕ → Text) where
  since_part : ℕ → Text
  since_part since_seconds =
      if ltb 0 since_seconds then codes "&sinceSeconds=" ++ digits since_seconds else []

  start_part : ℕ → ℕ → Text
  unfolding since_part
  start_part tail_lines since_seconds =
      if ltb 0 tail_lines
      then codes "&tailLines=" ++ digits tail_lines
      else since_part since_seconds

  stream_part : Option Text → Text
  stream_part none = []
  stream_part (some s) = codes "&stream=" ++ s

  unfoldable pub log_url : Text → Text → Text → ℕ → ℕ → Option Text → Text
  unfolding start_part stream_part
  log_url namespace pod container_key tail_lines since_seconds stream =
      codes "/api/v1/namespaces/"
      ++ namespace
      ++ codes "/pods/"
      ++ pod
      ++ codes "/log?follow=true&timestamps=true"
      ++ (if is_empty container_key then [] else codes "&container=" ++ container_key)
      ++ start_part tail_lines since_seconds
      ++ stream_part stream
