-- ===== src/Identity.antt =====
-- The identity store, crates/vigild/src/identity/mod.rs, and the access of a request,
-- crates/vigild/src/api/auth/mod.rs.
mod Store
mod Access
pub mod Granted
pub mod Highest
mod Examples
unfoldable pub use Store.*
unfoldable pub use Access.*
