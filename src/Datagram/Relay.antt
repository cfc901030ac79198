-- ===== src/Datagram/Relay.antt =====
-- src/socks5/udp_associate.rs: the SOCKS5 UDP relay packets.
mod Defs
pub mod RoundTrip
pub mod Safety
unfoldable pub use Defs.*
