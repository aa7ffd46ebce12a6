-- ===== src/Service.antt =====
-- The service actor: crates/vigild/src/service/ and crates/vigild/src/state.rs.
mod State
mod Runtime
mod Backoff
mod Process
mod Handlers
mod Loop
pub mod Settled
pub mod Stopping
pub mod Policies
pub mod CrashLoop
pub mod Fixed
pub mod Samples
mod Examples
unfoldable pub use State.*
unfoldable pub use Runtime.*
unfoldable pub use Backoff.*
unfoldable pub use Process.*
unfoldable pub use Handlers.*
unfoldable pub use Loop.*
