-- ===== src/Session/Selector.antt =====
-- src/session/transport_selector.rs: iroh first, then WSS, under timeouts and cancellation.
mod Defs
pub mod Timing
pub mod Choice
unfoldable pub use Defs.*
