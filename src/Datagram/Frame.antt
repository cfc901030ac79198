-- ===== src/Datagram/Frame.antt =====
-- src/wss_gateway/datagram.rs: datagrams as binary WebSocket frames.
mod Defs
pub mod Targets
pub mod RoundTrip
pub mod Safety
unfoldable pub use Defs.*
