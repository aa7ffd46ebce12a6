-- ===== src/Overlord.antt =====
-- The overlord: crates/vigild/src/overlord/. It owns the plan, the service and check actors and the
-- alert sender, and drives them by commands and events.
mod State
mod Ordering
mod Lifecycle
mod Reload
mod Events
mod Actions
mod View
pub mod Queries
pub mod Main
mod Stopped
mod Ended
pub mod Samples
mod Runs
pub mod Load
mod Loaded
pub mod Autostart
pub mod Waiting
pub mod Cascade
pub mod Reloaded
pub mod Requested
mod Examples
unfoldable pub use State.*
unfoldable pub use Ordering.*
unfoldable pub use Lifecycle.*
unfoldable pub use Reload.*
unfoldable pub use Events.*
unfoldable pub use Actions.*
