-- ===== src/Alert.antt =====
-- Alerts: crates/vigild/src/alert/. The sender decides which events are notified and puts jobs into
-- a bounded queue; the worker and the delivery are in the children.
mod Status
mod Sender
pub mod Delivery
pub mod History
pub mod Attempts
pub mod Format
mod Payloads
mod Examples
unfoldable pub use Status.*
unfoldable pub use Sender.*
