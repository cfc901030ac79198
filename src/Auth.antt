-- ===== src/Auth.antt =====
-- src/auth/mod.rs: the policy that admits a client to the server's gateway.
mod Defs
pub mod Laws
unfoldable pub use Defs.*
