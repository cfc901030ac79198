-- ===== src/ProxyBridge.antt =====
-- src/proxy_bridge/mod.rs: one proxied request, from its intent to its end.
mod Defs
pub mod Pump
pub mod Slots
pub mod UdpRelay
pub mod Target
unfoldable pub use Defs.*
