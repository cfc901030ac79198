-- ===== src/Socks5.antt =====
-- src/socks5/: the SOCKS5 ingress of the client.
pub mod Reply
pub mod Request
pub mod Associate
pub mod Connection
