-- ===== src/Gateway/Datagrams.antt =====
-- src/wss_gateway/mod.rs: datagrams over a WebSocket.
mod Defs
mod Server
pub mod RoundTrip
pub mod Loop
unfoldable pub use Defs.*
unfoldable pub use Server.*
