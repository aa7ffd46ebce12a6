-- ===== src/Plan.antt =====
-- The configuration of vigild: crates/vigil-types/src/plan/.
mod Config
mod Merge
mod Layers
pub mod Precedence
pub mod InForce
mod Unions
pub mod Samples
mod Examples
pub use Config.*
unfoldable pub use Merge.*
unfoldable pub use Layers.*
