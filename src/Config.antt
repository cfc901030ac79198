-- ===== src/Config.antt =====
-- src/config/mod.rs: the configuration that the process runs with.
mod Defs
pub mod Laws
unfoldable pub use Defs.*
