-- ===== src/ProxyBridge/Target.antt =====
-- src/proxy_bridge/mod.rs: `target_host` and `target_port`, which fill the transport's request.
use newghost.Prelude.{ℕ, List}
use newghost.Net.{IpText}
use newghost.Socks5.Request.{TargetAddr, ip, domain}

unfoldable pub target_host : IpText → TargetAddr → List ℕ
target_host text_of (ip addr) = text_of.to_text addr.ip
target_host text_of (domain name port) = name

unfoldable pub target_port : TargetAddr → ℕ
target_port (ip addr) = addr.port
target_port (domain name port) = port
