-- ===== src/Session/DatagramSelector.antt =====
-- src/session/datagram_transport_selector.rs: one carrier, one timeout, and cancellation.
mod Defs
pub mod Emission
unfoldable pub use Defs.*
