-- ===== src/Socks5/Connection.antt =====
-- src/socks5/mod.rs: the handler of one accepted client.
mod Defs
pub mod Queue
pub mod Cleanup
unfoldable pub use Defs.*
