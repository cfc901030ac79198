-- ===== src/Socks5/Request.antt =====
-- src/socks5/mod.rs: the handshake and the request of a SOCKS5 client.
mod Defs
pub mod RoundTrip
pub mod Answers
unfoldable pub use Defs.*
