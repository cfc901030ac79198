-- ===== src/Gateway/Requests.antt =====
-- src/wss_gateway/mod.rs: the text requests that a client sends behind the authentication.
mod Defs
pub mod RoundTrip
unfoldable pub use Defs.*
