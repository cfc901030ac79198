-- ===== src/Socks5/Associate.antt =====
-- src/socks5/udp_associate.rs: the relay socket of a UDP ASSOCIATE request and its loop.
mod Defs
pub mod Reply
pub mod Sockets
pub mod Loop
unfoldable pub use Defs.*
