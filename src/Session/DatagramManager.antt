-- ===== src/Session/DatagramManager.antt =====
-- src/session/datagram_manager.rs: who owns the UDP associations, and how datagrams pass.
mod Defs
pub mod Invariant
pub mod History
pub mod Ensure
pub mod Dispatch
pub mod Bridge
unfoldable pub use Defs.*
