-- ===== src/Net/Address.antt =====
-- `std::net`: addresses. The flow label and the scope of an IPv6 socket address are left out: the
-- code never reads them, and `SocketAddr::new` sets them to 0. A text is the list of its bytes.
use newghost.Prelude.{
  ℕ, ◌<◌, ◌≤◌, ◌≡◌, ◌^◌, Bool, true, false, ◌&&◌, Option, some, List, length, ◌==◌, ◌↔◌, arith,
}
use newghost.Net.Utf8.{is_utf8}

-- The octets of an IPv4 address, and the number that an IPv6 address is.
pub data IpAddr : Type 0 where
  v4 : ℕ → ℕ → ℕ → ℕ → IpAddr
  v6 : ℕ → IpAddr

pub record SocketAddr : Type 0 where
  pub ip : IpAddr
  pub port : ℕ

abbrev pub IsIp : IpAddr → Type 0
IsIp (v4 a b c d) = (a < 256) × (b < 256) × (c < 256) × (d < 256)
IsIp (v6 n) = n < 2 ^ 128

abbrev pub ip_eq : IpAddr → IpAddr → Bool
ip_eq (v4 a b c d) (v4 a' b' c' d') = a == a' && b == b' && c == c' && d == d'
ip_eq (v4 a b c d) (v6 n) = false
ip_eq (v6 n) (v4 a b c d) = false
ip_eq (v6 n) (v6 n') = n == n'

-- `SocketAddr: PartialEq`
abbrev pub addr_eq : SocketAddr → SocketAddr → Bool
addr_eq a b = ip_eq a.ip b.ip && a.port == b.port

ip_eq_iff : (a b : IpAddr) → (ip_eq a b ≡ true) ↔ (a ≡ b)
ip_eq_iff (v4 a b c d) (v4 a' b' c' d') = ground arith
ip_eq_iff (v4 a b c d) (v6 n) = ground arith
ip_eq_iff (v6 n) (v4 a b c d) = ground arith
ip_eq_iff (v6 n) (v6 n') = ground arith

pub addr_eq_iff : (a b : SocketAddr) → (addr_eq a b ≡ true) ↔ (a ≡ b)
addr_eq_iff a b = ground (arith, ip_eq_iff a.ip b.ip)

-- `Display` and `FromStr` of `IpAddr`. The text of an address is ASCII, is short, and is read back
-- as the same address.
pub record IpText : Type 0 where
  pub to_text : IpAddr → List ℕ
  pub parse : List ℕ → Option IpAddr
  pub parse-to_text : (ip : IpAddr) → IsIp ip → parse (to_text ip) ≡ some ip
  pub is_utf8-to_text : (ip : IpAddr) → IsIp ip → is_utf8 (to_text ip) ≡ true
  pub length-to_text : (ip : IpAddr) → IsIp ip → length (to_text ip) ≤ 45
