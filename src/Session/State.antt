-- ===== src/Session/State.antt =====
-- src/session/state.rs: the pure state machine of one session.
mod Defs
pub mod Laws
unfoldable pub use Defs.*
