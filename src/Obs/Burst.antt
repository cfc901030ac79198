-- ===== src/Obs/Burst.antt =====
-- src/obs/mod.rs: the detector of bursts of rejected intents.
mod Defs
pub mod Window
pub mod Logs
unfoldable pub use Defs.*
