-- ===== src/Gateway.antt =====
-- src/wss_gateway/mod.rs: the WebSocket transport between client and server.
pub mod WebSocket
pub mod Requests
pub mod Handshake
pub mod Tunnel
pub mod Datagrams
pub mod EndToEnd
