-- ===== src/Gateway/Tunnel.antt =====
-- src/wss_gateway/mod.rs: the byte stream that the WebSocket carries, and the end of its tasks.
mod Defs
pub mod Delivery
pub mod Lifecycle
unfoldable pub use Defs.*
