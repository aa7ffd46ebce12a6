-- ===== src/Relay/Examples.antt =====
-- Runs of crates/vigil-log-relay/src/.
use vigil_rs.Prelude.{
  ◌+◌, ◌≤◌, ◌≡◌, ◌↔◌, refl, true, false, none, some, List, [], ◌∷◌, ◌++◌, All, String, codes, all,
  starts_with, arith,
}
use vigil_rs.Relay.Filter.{LineFilter, allow}
use vigil_rs.Relay.Sink.{
  SinkConfig, Sink, Happening, line, closed, idle, returned, start, connect, write, receive, run,
}
use vigil_rs.Relay.Lines.{waiting, run-start-lines}
use vigil_rs.Relay.Pods
use vigil_rs.Relay.Pods.{
  Pod, StreamTask, Settings, Source, all_containers, new_source, Event, applied, deleted, tick,
  stream_ended, abort_done,
}
use vigil_rs.Relay.Capacity.{requests, live, run-new_source-IsBalanced}
use vigil_rs.Relay.Streams.{has_stream, step-tick-streams}
use vigil_rs.Relay.Stream
use vigil_rs.Relay.Stream.{
  LogEntry, Origin, new_reader, stream_pod, log_url, accept, read_line, read_parts,
}
use vigil_rs.Relay.Order.{is_increasing, stream_pod-is_increasing}
use vigil_rs.Relay.Http.{ReconnectConfig, forward_line, payload_of, is_metadata}
use vigil_rs.Relay.Reconnect
use vigil_rs.Relay.Reconnect.{streamed, bad_status, unreachable, Attempt, new_loop}
use vigil_rs.Relay.Retries.{longest, run-new_loop-none_iff}
use vigil_rs.Relay.Cli.{default_cli}
use vigil_rs.Relay.Main.{sink_config, stdout_sink}

-- A connect that fails, a connect, a line that is not written, a connect, its retry, a line, the end.
abbrev happenings : List Happening
happenings =
    record { is_connected = false; received = idle; is_written = true }
    ∷ record { is_connected = true; received = idle; is_written = true }
    ∷ record { is_connected = true; received = line (codes "a"); is_written = false }
    ∷ record { is_connected = true; received = idle; is_written = true }
    ∷ record { is_connected = true; received = line (codes "b"); is_written = true }
    ∷ record { is_connected = true; received = line (codes "b"); is_written = true }
    ∷ record { is_connected = true; received = closed; is_written = true }
    ∷ []

config : SinkConfig
unfolding sink_config
config = sink_config default_cli

happenings_test : (run config happenings (start config)).written ≡ codes "a" ∷ codes "b" ∷ []
unfolding run start connect write receive config
happenings_test = refl

run-start-lines_example :
    let s : Sink = run config happenings (start config) in
    (s.taken ≡ s.written ++ waiting s.pending) × (s.phase ≡ returned → s.taken ≡ s.written)
run-start-lines_example = run-start-lines config happenings

abbrev settings : Settings
settings = record {
  selector = all_containers;
  is_excluded = λ name. false;
  max_log_requests = 2;
  is_separate = true;
  tail_lines = 5;
  since_seconds = 10;
}

abbrev web : Pod
web = record {
  name = some "web";
  is_running = true;
  containers = some ("app" ∷ "log" ∷ "sidecar" ∷ []);
}

abbrev events : List Event
events = applied web ∷ stream_ended "web" "app" ∷ tick ∷ deleted web ∷ abort_done ∷ []

run-new_source-IsBalanced_example :
    let s : Source = Pods.run settings events (new_source settings) in
    (s.free + s.aborting + live s.active ≡ 2) × (requests settings s ≤ 4 + s.detached)
run-new_source-IsBalanced_example = run-new_source-IsBalanced settings (omega arith) events

abbrev one_pod : Source
one_pod = record {
  running_pods = ("web", "app" ∷ []) ∷ [];
  active = record { pod = "web"; key = "app"; tail = 5; since = 10; is_finished = true } ∷ [];
  initialized = "web" ∷ [];
  free = 0;
  aborting = 0;
  detached = 0;
}

step-tick-streams_example :
    All
      (λ (e : String × List String).
        All
          (λ key.
            has_stream (Pods.step (record settings { max_log_requests = 0 }) tick one_pod) e.0 key
            ≡ true)
          e.1)
      one_pod.running_pods
step-tick-streams_example =
    step-tick-streams (record settings { max_log_requests = 0 }) one_pod refl

abbrev origin : Origin
origin = record {
  namespace = codes "default";
  pod = codes "web";
  container = none;
  stream = codes "output";
}

abbrev everything : LineFilter
everything = record { include = []; exclude = [] }

abbrev sent_twice : List Stream.Next
sent_twice =
    Stream.line (codes "01:00Z a") true
    ∷ Stream.line (codes "01:00Z a") true
    ∷ Stream.line (codes "02:00Z b") true
    ∷ Stream.line (codes "01:30Z c") true
    ∷ Stream.eof
    ∷ []

stream_pod-is_increasing_example :
    let sent : List LogEntry = (stream_pod origin everything sent_twice new_reader).sent in
    (is_increasing sent ≡ true) × (all (λ e. allow everything e.message) sent ≡ true)
stream_pod-is_increasing_example = stream_pod-is_increasing origin everything sent_twice

abbrev three : ReconnectConfig
three = record { initial_delay_ms = 500; max_delay_ms = 30_000; max_retries = 3 }

abbrev attempts : List Attempt
attempts = unreachable ∷ bad_status ∷ streamed false ∷ unreachable ∷ unreachable ∷ []

run-new_loop-none_iff_example :
    (Reconnect.run three attempts (new_loop three) ≡ none) ↔ ((1 ≤ 3) × (3 ≤ longest 0 attempts))
run-new_loop-none_iff_example = run-new_loop-none_iff three attempts

forward_line_test :
    forward_line everything true (codes "data:  {}") ++ forward_line everything true (codes "id: 4")
    ≡ codes "{}\n" ∷ []
unfolding forward_line payload_of is_metadata allow starts_with
forward_line_test = refl

-- a line from the channel already has its end
stdout_sink_test : stdout_sink (codes "{}\n" ∷ []) ≡ codes "{}\n\n"
unfolding stdout_sink
stdout_sink_test = refl
