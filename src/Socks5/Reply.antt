-- ===== src/Socks5/Reply.antt =====
-- src/socks5/mod.rs: the errors of a proxied request, and the reply that the client gets for each.
mod Defs
pub mod Laws
unfoldable pub use Defs.*
