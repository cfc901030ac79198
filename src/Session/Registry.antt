-- ===== src/Session/Registry.antt =====
-- src/session/registry.rs: the capacity-aware store of the sessions.
mod Defs
pub mod Invariant
pub mod History
pub mod Sessions
unfoldable pub use Defs.*
