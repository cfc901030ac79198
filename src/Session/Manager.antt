-- ===== src/Session/Manager.antt =====
-- src/session/effect_handler.rs and src/session/mod.rs: the session manager.
mod Defs
pub mod Lifecycle
pub mod Slots
pub mod Shutdown
unfoldable pub use Defs.*
