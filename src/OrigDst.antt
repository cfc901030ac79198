-- ===== src/OrigDst.antt =====
-- src/udp_origdst/linux.rs: the original destination of a redirected datagram.
pub mod Control
pub mod Runtime
