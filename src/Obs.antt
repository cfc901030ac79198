-- ===== src/Obs.antt =====
-- src/obs/mod.rs: what the logs and the metrics of the process show.
pub mod Redact
pub mod Burst
