-- ===== src/Session.antt =====
-- session/: the session state machine, its typed effects, the registry that owns the sessions and
-- the manager that joins them with the transport selector.
pub mod Effects
pub mod State
pub mod Registry
pub mod Selector
pub mod Manager
pub mod UdpRegistry
pub mod DatagramManager
pub mod DatagramSelector
