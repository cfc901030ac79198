-- ===== src/Datagram/Relay/RoundTrip.antt =====
-- Parsing an encoded relay packet of src/socks5/udp_associate.rs.
use newghost.Prelude.{
  ℕ, ◌+◌, ◌^◌, ◌<◌, ◌≡◌, refl, arith, ap, subst, false, List, [], ◌∷◌, ◌++◌, append_assoc, length,
  length-append, ltb,
}
use newghost.Prelude.Outcome.{ok, index, >>=-eq-ok}
use newghost.Net.{IpAddr, v4, v6, addr_eq_iff}
use newghost.Net.BigEndian.{to_be_bytes}
use newghost.Net.Cursor.{At, At-start, At-index, At-skip, At-slice, At-nth}
use newghost.Datagram.Contract.{DatagramTarget, ip, domain, DatagramEnvelope, validate}
use newghost.Datagram.Frame.Targets.{
  IsV4, Encodable, in_bounds, read_u16-At, from_utf8_ok, FitsTarget, target_bytes, addr_bytes,
}
use newghost.Datagram.Relay.Defs.{
  UdpAssociateError, slice_from, check_contract, parse_ip_target, parse_domain_target, parse_target,
  parse_udp_datagram, encode_udp_addr, encode_udp_target, encode_udp_datagram,
}

encode_udp_addr-eq :
    (a : IpAddr) (port : ℕ) (bytes : List ℕ)
    → encode_udp_addr a port ≡ ok bytes
    → bytes ≡ addr_bytes a port
unfolding encode_udp_addr
encode_udp_addr-eq (v4 a b c d) port bytes e = ground arith
encode_udp_addr-eq (v6 n) port bytes e = cc

encode_udp_target-eq :
    (target : DatagramTarget) (bytes : List ℕ)
    → encode_udp_target target ≡ ok bytes
    → bytes ≡ target_bytes target
unfolding encode_udp_target
encode_udp_target-eq (ip addr) bytes e = encode_udp_addr-eq addr.ip addr.port bytes e
encode_udp_target-eq (domain name port) bytes e = ground arith

parse_addr-At :
    (packet : List ℕ) (a : IpAddr) (port : ℕ) (bytes rest : List ℕ)
    → port < 2 ^ 16
    → encode_udp_addr a port ≡ ok bytes
    → At packet 3 (addr_bytes a port ++ rest)
    → (atyp : ℕ) × (index {E = UdpAssociateError} packet 3 ≡ ok atyp)
      × (parse_target packet atyp
          ≡ ok (ip (record { ip = a; port = port }), 3 + length (addr_bytes a port)))
unfolding encode_udp_addr parse_target parse_ip_target
parse_addr-At packet (v4 a b c d) port bytes rest h e at = (
  1,
  At-index packet 3 1 _ at,
  rw
      (
        in_bounds 10 (length packet) (omega (arith, at.total)),
        At-nth packet 3 (1 ∷ []) a _ at,
        At-nth packet 3 (1 ∷ a ∷ []) b _ at,
        At-nth packet 3 (1 ∷ a ∷ b ∷ []) c _ at,
        At-nth packet 3 (1 ∷ a ∷ b ∷ c ∷ []) d _ at,
        read_u16-At packet 8 port rest h (At-skip packet 3 (1 ∷ a ∷ b ∷ c ∷ d ∷ []) _ at),
      )
      refl,
)
parse_addr-At packet (v6 n) port bytes rest h e at = cc

parse_target-At :
    (packet : List ℕ) (target : DatagramTarget) (bytes rest : List ℕ)
    → FitsTarget target
    → encode_udp_target target ≡ ok bytes
    → At packet 3 (target_bytes target ++ rest)
    → (atyp : ℕ) × (index {E = UdpAssociateError} packet 3 ≡ ok atyp)
      × (parse_target packet atyp ≡ ok (target, 3 + length (target_bytes target)))
unfolding encode_udp_target
parse_target-At packet (ip addr) bytes rest h e at =
    parse_addr-At packet addr.ip addr.port bytes rest h e at
parse_target-At packet (domain name port) bytes rest h e at =
    let parted : At packet 3 (3 ∷ length name ∷ (name ++ (to_be_bytes 2 port ++ rest))) =
      rw append_assoc at at in
    let at_name = At-skip packet 3 (3 ∷ length name ∷ []) _ parted in
    let at_port = At-skip packet 5 name _ at_name in
    (
      3,
      At-index packet 3 3 _ at,
      unfold parse_target parse_domain_target in
          rw
            (
              in_bounds 5 (length packet) (omega (arith, at_name.total)),
              At-nth packet 3 (3 ∷ []) (length name) _ at,
              in_bounds (5 + length name + 2) (length packet) (omega (arith, at_port.total)),
              At-slice packet 5 name _ at_name,
              from_utf8_ok name h.0,
              read_u16-At packet (5 + length name) port rest h.1 at_port,
            )
            (ap (λ (n : ℕ). ok (domain name port, n))
              (omega (arith, length-append name (to_be_bytes 2 port)))),
    )

target_bytes-pos :
    (target : DatagramTarget) (bytes : List ℕ)
    → encode_udp_target target ≡ ok bytes
    → 0 < length (target_bytes target)
unfolding encode_udp_target
target_bytes-pos (ip addr) bytes e = addr_bytes-pos addr.ip addr.port bytes e
  where
    addr_bytes-pos :
        (a : IpAddr) (port : ℕ) (bytes : List ℕ)
        → encode_udp_addr a port ≡ ok bytes
        → 0 < length (addr_bytes a port)
    addr_bytes-pos (v4 a b c d) port bytes e = omega arith
    addr_bytes-pos (v6 n) port bytes e = unfold encode_udp_addr in cc e
target_bytes-pos (domain name port) bytes e = omega arith

slice_from-At :
    {E : Type 0} (packet : List ℕ) (at : ℕ) (rest : List ℕ)
    → At packet at rest
    → slice_from {E = E} packet at ≡ ok rest
slice_from-At packet at rest a = ground (arith, a.here, a.total)

check_contract-ok : (e : DatagramEnvelope) → validate e ≡ ok tt → check_contract e ≡ ok tt
unfolding check_contract
check_contract-ok e h = rw (h, check_contract) refl

parse-encoded :
    (e : DatagramEnvelope) (packet : List ℕ)
    → FitsTarget e.target
    → validate e ≡ ok tt
    → encode_udp_datagram e ≡ ok packet
    → parse_udp_datagram e.relay_client_addr e.relay_client_addr packet e.association_id ≡ ok e
unfolding encode_udp_datagram parse_udp_datagram
parse-encoded e packet fits valid encoded =
    let (bytes, of_target, rest) = >>=-eq-ok (encode_udp_target e.target) _ encoded in
    let same = encode_udp_target-eq e.target bytes of_target in
    let whole : packet ≡ 0 ∷ 0 ∷ 0 ∷ (target_bytes e.target ++ e.payload) = cc (rest, same) in
    let start = subst (λ xs. At packet 0 xs) whole (At-start packet) in
    let at_target = At-skip packet 0 (0 ∷ 0 ∷ 0 ∷ []) _ start in
    let (atyp, of_atyp, target) =
      parse_target-At packet e.target bytes e.payload fits of_target at_target in
    let at_payload = At-skip packet 3 (target_bytes e.target) _ at_target in
    rw
      (
        (addr_eq_iff e.relay_client_addr e.relay_client_addr).1 refl,
        in_bounds 4 (length packet) (
            omega (
              arith,
              at_target.total,
              length-append (target_bytes e.target) e.payload,
              target_bytes-pos e.target bytes of_target,
            )),
        At-index packet 0 0 _ start,
        At-nth packet 0 (0 ∷ []) 0 _ start,
        At-nth packet 0 (0 ∷ 0 ∷ []) 0 _ start,
        of_atyp,
        target,
        slice_from-At packet (3 + length (target_bytes e.target)) e.payload at_payload,
        check_contract-ok e valid,
      )
      refl

encode_udp_addr_ok :
    (a : IpAddr) (port : ℕ) → IsV4 a → (bytes : List ℕ) × (encode_udp_addr a port ≡ ok bytes)
unfolding encode_udp_addr
encode_udp_addr_ok (v4 a b c d) port h = (_, refl)
encode_udp_addr_ok (v6 n) port h = absurd h

encode_udp_target_ok :
    (target : DatagramTarget)
    → Encodable target
    → (bytes : List ℕ) × (encode_udp_target target ≡ ok bytes)
unfolding encode_udp_target
encode_udp_target_ok (ip addr) h = encode_udp_addr_ok addr.ip addr.port h
encode_udp_target_ok (domain name port) h =
    let fits : ltb 255 (length name) ≡ false = ground (arith, h) in
    (target_bytes (domain name port), rw fits refl)

-- An envelope that meets the contract and whose target a relay packet can carry is encoded, and
-- the parser, with the envelope's client as the source that it expects, reads it back from the
-- packet.
pub parse-encode :
    (e : DatagramEnvelope)
    → FitsTarget e.target
    → Encodable e.target
    → validate e ≡ ok tt
    → (packet : List ℕ) × (encode_udp_datagram e ≡ ok packet)
      × (parse_udp_datagram e.relay_client_addr e.relay_client_addr packet e.association_id ≡ ok e)
unfolding encode_udp_datagram
parse-encode e fits can valid =
    let (bytes, of_target) = encode_udp_target_ok e.target can in
    let packet = 0 ∷ 0 ∷ 0 ∷ (bytes ++ e.payload) in
    let encoded : encode_udp_datagram e ≡ ok packet = rw of_target refl in
    (packet, encoded, parse-encoded e packet fits valid encoded)
