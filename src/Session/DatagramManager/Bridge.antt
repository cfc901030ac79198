-- ===== src/Session/DatagramManager/Bridge.antt =====
-- src/session/datagram_manager.rs: the bridge from the UDP relay of a SOCKS5 client.
mod Defs
pub mod Delivery
unfoldable pub use Defs.*
