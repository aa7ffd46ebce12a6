-- ===== src/Relay.antt =====
-- crates/vigil-log-relay/src/: the relay of log lines, from sources through a filter to one TCP sink.
pub mod Filter
pub mod Sink
mod Lines
mod Backoff
pub mod Pods
mod Capacity
mod Streams
mod Tracked
pub mod Stream
mod Order
pub mod Http
pub mod Reconnect
mod Retries
pub mod Cli
pub mod Main
mod Examples
