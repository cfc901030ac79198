-- ===== src/Datagram/Relay/Defs.antt =====
-- src/socks5/udp_associate.rs: `parse_udp_datagram` and `encode_udp_datagram`.
use Prim.Native.String.{String}
use newghost.Prelude.{
  ℕ, ◌+◌, not, ◌||◌, List, ◌∷◌, ◌++◌, length, drop, ltb, leb, ◌==◌, if◌then◌else◌,
}
use newghost.Prelude.Outcome.{Outcome, ok, err, panic, ◌>>=◌, ◌>>◌, reject_if, ok_or, index, slice}
use newghost.Net.{IpAddr, v4, v6, SocketAddr, addr_eq}
use newghost.Net.Utf8.{from_utf8}
use newghost.Net.BigEndian.{to_be_bytes}
use newghost.Datagram.Contract.{
  DatagramAssociationId, DatagramTarget, ip, domain, DatagramEnvelope, DatagramError, validate,
}
use newghost.Datagram.Frame.{read_u16}

pub data UdpAssociateError : Type 0 where
  io : String → UdpAssociateError
  invalid_reserved_field invalid_target_address : UdpAssociateError
  unsupported_fragmentation unsupported_address_type : ℕ → UdpAssociateError
  foreign_source : SocketAddr → SocketAddr → UdpAssociateError
  datagram_contract : DatagramError → UdpAssociateError

abbrev pub Parsed : Type 0 → Type 0
Parsed A = Outcome UdpAssociateError A

-- `&value[a..]`
abbrev pub slice_from {ℓ κ} : {E : Type ℓ} {A : Type κ} → List A → ℕ → Outcome E (List A)
slice_from xs a = if leb a (length xs) then ok (drop a xs) else panic

-- `?` on a contract error, by `From<DatagramError>`.
unfoldable pub check_contract : DatagramEnvelope → Parsed (Unit {0})
check_contract envelope = elim (validate envelope) [
  | ok u ↦ ok u
  | err e ↦ err (datagram_contract e)
  | panic ↦ panic
]

-- The arm of the address type 0x01, with the payload's offset.
unfoldable pub parse_ip_target : List ℕ → Parsed (DatagramTarget × ℕ)
parse_ip_target packet = do
  reject_if (ltb (length packet) 10) invalid_target_address
  a ← index packet 4
  b ← index packet 5
  c ← index packet 6
  d ← index packet 7
  port ← read_u16 packet 8
  ok (ip (record { ip = v4 a b c d; port = port }), 10)

-- The arm of the address type 0x03.
unfoldable pub parse_domain_target : List ℕ → Parsed (DatagramTarget × ℕ)
parse_domain_target packet = do
  reject_if (ltb (length packet) 5) invalid_target_address
  domain_len ← index packet 4
  let domain_end = 5 + domain_len
  reject_if (ltb (length packet) (domain_end + 2)) invalid_target_address
  bytes ← slice packet 5 domain_end
  name ← ok_or (from_utf8 bytes) invalid_target_address
  port ← read_u16 packet domain_end
  ok (domain name port, domain_end + 2)

unfoldable pub parse_target : List ℕ → ℕ → Parsed (DatagramTarget × ℕ)
parse_target packet atyp =
    if atyp == 0x01
    then parse_ip_target packet
    else if atyp == 0x03
    then parse_domain_target packet
    else err (unsupported_address_type atyp)

unfoldable pub parse_udp_datagram :
    SocketAddr → SocketAddr → List ℕ → DatagramAssociationId → Parsed DatagramEnvelope
parse_udp_datagram source expected_source packet id = do
  reject_if (not (addr_eq source expected_source)) (foreign_source expected_source source)
  reject_if (ltb (length packet) 4) invalid_reserved_field
  reserved ← index packet 0
  reserved' ← index packet 1
  reject_if (not (reserved == 0x00) || not (reserved' == 0x00)) invalid_reserved_field
  fragment ← index packet 2
  reject_if (not (fragment == 0x00)) (unsupported_fragmentation fragment)
  atyp ← index packet 3
  (target, payload_offset) ← parse_target packet atyp
  payload ← slice_from packet payload_offset
  let envelope : DatagramEnvelope = record {
    association_id = id;
    relay_client_addr = source;
    target = target;
    payload = payload;
  }
  check_contract envelope
  ok envelope

unfoldable pub encode_udp_addr : IpAddr → ℕ → Parsed (List ℕ)
encode_udp_addr (v4 a b c d) port = ok (0x01 ∷ a ∷ b ∷ c ∷ d ∷ to_be_bytes 2 port)
encode_udp_addr (v6 n) port = err (unsupported_address_type 0x04)

unfoldable pub encode_udp_target : DatagramTarget → Parsed (List ℕ)
encode_udp_target (ip addr) = encode_udp_addr addr.ip addr.port
encode_udp_target (domain name port) =
    if ltb 255 (length name)
    then err invalid_target_address
    else ok (0x03 ∷ length name ∷ (name ++ to_be_bytes 2 port))

unfoldable pub encode_udp_datagram : DatagramEnvelope → Parsed (List ℕ)
encode_udp_datagram envelope = do
  target ← encode_udp_target envelope.target
  ok (0x00 ∷ 0x00 ∷ 0x00 ∷ (target ++ envelope.payload))
