-- ===== src/Session/UdpRegistry.antt =====
-- src/session/udp_registry.rs: the capacity-aware store of the UDP associations.
mod Defs
pub mod Cases
pub mod Invariant
unfoldable pub use Defs.*
