-- ===== src/Check.antt =====
-- Health checks: the actor of crates/vigild/src/check/actor/mod.rs.
mod Actor
pub mod Threshold
pub mod Reports
mod Examples
unfoldable pub use Actor.*
