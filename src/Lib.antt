-- ===== src/Lib.antt =====
-- vigil-rs: a service supervisor for containers. The daemon vigild merges YAML layers into a plan,
-- runs each service and each health check as an actor, and drives them from one overlord, which
-- starts services in the order of their dependencies, stops dependents, reacts to checks, sends
-- alerts and takes commands from an HTTP API.
--
-- Parts of the program and their files here:
--   Duration    crates/vigild/src/duration.rs: parse_duration.
--   Command     crates/vigild/src/process_util/parse.rs: parse_command, shell_words, find_unquoted.
--   Credentials crates/vigild/src/process_util/identity.rs: resolve_credentials and what it calls.
--   Plan        crates/vigil-types/src/plan/: the configuration types, the merges, Plan::from_layers.
--   Service     crates/vigild/src/service/, state.rs: the actor's record (Runtime), the backoff, the
--               start of a process and the signals (Process), the handlers, and a round of the
--               select loop as `step` with the states it reaches (Loop).
--   Alert       crates/vigild/src/alert/: AlertSender (Sender), http_send and the worker (Delivery),
--               the payloads of format/mod.rs (Format).
--   Check       crates/vigild/src/check/actor/mod.rs: the rounds of a check on its probes' results.
--   Logs        crates/vigild/src/logs/: the ring buffers of store.rs (Store) and its
--               pushes between their locks (Race), the loops of push.rs (Push).
--   Identity    crates/vigild/src/identity/mod.rs (Store) and crates/vigild/src/api/auth/mod.rs (Access): who
--               may do what on the API.
--   Overlord    crates/vigild/src/overlord/: the overlord's state, svc_cmd (State), the test of
--               dependencies (Ordering), autostart and stop (Lifecycle), sync_actors and
--               reload_layers (Reload), the events (Events), the API's actions (Actions), the queries
--               (Queries), load_plan of plan.rs (Load) and the main loop with its queues (Main).
--   Reaper      crates/vigild/src/reaper.rs: the statuses that the reaper collects and wait_child; Race has
--               the steps of the reaper, the child and its waiter in any order.
--   NoProxy     crates/vigil-types/src/no_proxy/mod.rs: parse_no_proxy, no_proxy_matches, with the methods
--               of `str` that they call (Strings).
--   Relay       crates/vigil-log-relay/src/: the filter, the TCP sink (Sink), the event loop over pods
--               (Pods) and one stream (Stream) of source_k8s/, forward_line and stream_loop of
--               source_http/ (Http), the loops of source_url/ and source_unix/ (Reconnect), the
--               arguments (Cli), the choice of the source and the health check (Main).
--   Metrics     crates/vigild/src/metrics/mod.rs: the counters and gauges, and what records in them.
--   Api         crates/vigild/src/api/: the handlers by the routes of `router`, parse_names (Names)
--               and the live stream of logs (Follow).
--   Prelude     shared types, maps, results, text and lemmas.
-- The other files of each part prove its properties, and run them at examples.
--
-- How they interact: a handler of the API puts a command into the queue of the overlord's loop,
-- and answers with the reply to it, an argument here. The overlord owns the actors. A command is
-- taken by the actor's `step` before the overlord goes on, as svc_cmd awaits the reply; the
-- overlord sees an actor's state by its events only, so that the snapshot in its entry may lag
-- behind. What it sends is kept as a trace. A service's actor uses Command and Credentials to
-- start a process and Duration for its delays. The events of a check go through the alert sender
-- to the overlord's actions.
--
-- Numbers are natural numbers, with the wrap-around of the failure counter (2 ^ 32) and of the
-- change counter (2 ^ 64) written out; the checked arithmetic of durations is on 2 ^ 64.
-- Delays are in milliseconds. Floating-point scaling of a delay is a parameter, and its cast, which
-- stops at the greatest number of 64 bits, is written out. There is fuel in the loop
-- of parse_duration, the length of the text, since each round takes a character at least, and in
-- the loop of wait_child, 41 rounds, since each takes 5 of 200 milliseconds at least.
-- Loops over collections are recursions on lists. A map is a list of entries in the order of
-- insertion, as in the IndexMap of the source.
--
-- Parameters: the user database and `kill` (Service.World), the process ids that spawns give, the
-- environment, the answers of an HTTP endpoint, the checks of passwords and certificates, the results of probes, the entries of the
-- layers directory, the YAML parser, the comparison of check configurations, which the source makes on JSON text, the parser of IP
-- addresses, regular expressions, the template engine, and what the kernel and the network do, as a
-- list or a function of answers.
--
-- Not modelled: sockets, HTTP clients and servers, TLS and the command-line client, which are I/O; the
-- set-up of tasks, logs and signals; the text format of the metrics, and their calls but for those of
-- a service's actor and of the alerts.
pub mod Prelude
pub mod Duration
pub mod Command
pub mod Plan
pub mod Credentials
pub mod Service
pub mod Alert
pub mod Check
pub mod Logs
pub mod Identity
pub mod Overlord
pub mod Reaper
pub mod NoProxy
pub mod Relay
pub mod Metrics
pub mod Api
