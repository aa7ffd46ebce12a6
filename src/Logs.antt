-- ===== src/Logs.antt =====
-- The logs: crates/vigild/src/logs/.
mod Store
pub mod Push
pub mod Race
pub mod Ring
pub mod Interleaved
mod Examples
unfoldable pub use Store.*
