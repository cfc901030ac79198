-- ===== src/Gateway/Handshake.antt =====
-- src/wss_gateway/mod.rs: the handshakes of a client and of the server on a connected WebSocket.
mod Defs
pub mod Server
pub mod Client
unfoldable pub use Defs.*
