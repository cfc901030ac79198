-- ===== src/Datagram/Frame/Defs.antt =====
-- src/wss_gateway/datagram.rs. The text of an IP address is the standard library's, a parameter.
use newghost.Prelude.{
  ℕ, ◌+◌, ◌%◌, ◌^◌, not, Option, none, some, List, [], ◌∷◌, ◌++◌, length, ltb, ◌==◌, if◌then◌else◌,
}
use newghost.Prelude.Outcome.{Outcome, ok, err, ◌>>=◌, ◌>>◌, reject_if, ok_or, index, slice}
use newghost.Net.{IpAddr, v4, v6, IpText}
use newghost.Net.Utf8.{from_utf8}
use newghost.Net.BigEndian.{to_be_bytes, from_be_bytes}
use newghost.Datagram.Contract.{DatagramTarget, ip, domain, DatagramEnvelope}

abbrev pub datagram_frame_version : ℕ
datagram_frame_version = 1

abbrev pub target_kind_ip_v4 : ℕ
target_kind_ip_v4 = 1

abbrev pub target_kind_domain : ℕ
target_kind_domain = 3

pub data WssDatagramError : Type 0 where
  invalid_version unsupported_target_kind : ℕ → WssDatagramError
  invalid_frame non_binary_frame send_failed : WssDatagramError

abbrev pub Decoded : Type 0 → Type 0
Decoded A = Outcome WssDatagramError A

unfoldable pub encode_addr : IpAddr → ℕ → Decoded (List ℕ)
encode_addr (v4 a b c d) port = ok (target_kind_ip_v4 ∷ a ∷ b ∷ c ∷ d ∷ to_be_bytes 2 port)
encode_addr (v6 n) port = err (unsupported_target_kind 4)

-- The frame's bytes for the target.
unfoldable pub encode_target : DatagramTarget → Decoded (List ℕ)
encode_target (ip addr) = encode_addr addr.ip addr.port
encode_target (domain name port) =
    if ltb 255 (length name)
    then err invalid_frame
    else ok (target_kind_domain ∷ length name ∷ (name ++ to_be_bytes 2 port))

-- `u16::from_be_bytes([frame[i], frame[i + 1]])`
abbrev pub read_u16 : {E : Type 0} → List ℕ → ℕ → Outcome E ℕ
read_u16 frame i = do
  high ← index frame i
  low ← index frame (i + 1)
  ok (from_be_bytes (high ∷ low ∷ []))

-- The branch of `TARGET_KIND_IP_V4`, with the position after the target.
unfoldable pub decode_v4 : List ℕ → ℕ → Decoded (DatagramTarget × ℕ)
decode_v4 frame cursor = do
  reject_if (ltb (length frame) (cursor + 1 + 4 + 2)) invalid_frame
  a ← index frame (cursor + 1)
  b ← index frame (cursor + 2)
  c ← index frame (cursor + 3)
  d ← index frame (cursor + 4)
  port ← read_u16 frame (cursor + 5)
  ok (ip (record { ip = v4 a b c d; port = port }), cursor + 7)

-- The branch of `TARGET_KIND_DOMAIN`.
unfoldable pub decode_domain : List ℕ → ℕ → Decoded (DatagramTarget × ℕ)
decode_domain frame cursor = do
  reject_if (ltb (length frame) (cursor + 2)) invalid_frame
  domain_len ← index frame (cursor + 1)
  let domain_start = cursor + 2
  let domain_end = domain_start + domain_len
  reject_if (ltb (length frame) (domain_end + 2)) invalid_frame
  bytes ← slice frame domain_start domain_end
  name ← ok_or (from_utf8 bytes) invalid_frame
  port ← read_u16 frame domain_end
  ok (domain name port, domain_end + 2)

unfoldable pub decode_target : List ℕ → ℕ → ℕ → Decoded (DatagramTarget × ℕ)
decode_target frame cursor kind =
    if kind == target_kind_ip_v4
    then decode_v4 frame cursor
    else if kind == target_kind_domain
    then decode_domain frame cursor
    else err (unsupported_target_kind kind)

module _ (text : IpText) where
  open text use {to_text, parse}

  -- The bytes from the relay address to the end; `as u16` and `as u32` wrap.
  unfoldable pub encode_relay : DatagramEnvelope → Decoded (List ℕ)
  encode_relay envelope = do
    let relay_ip = to_text envelope.relay_client_addr.ip
    reject_if (ltb 65_535 (length relay_ip)) invalid_frame
    ok (
        to_be_bytes 2 (length relay_ip % 2 ^ 16)
        ++ (relay_ip
            ++ (to_be_bytes 2 envelope.relay_client_addr.port
                ++ (to_be_bytes 4 (length envelope.payload % 2 ^ 32) ++ envelope.payload))))

  unfoldable pub encode_datagram : DatagramEnvelope → Decoded (List ℕ)
  encode_datagram envelope = do
    target ← encode_target envelope.target
    relay ← encode_relay envelope
    ok (datagram_frame_version ∷ (to_be_bytes 8 envelope.association_id ++ (target ++ relay)))

  -- From the relay address, at `cursor`, to the end.
  unfoldable pub decode_relay : List ℕ → ℕ → DatagramTarget → ℕ → Decoded DatagramEnvelope
  decode_relay frame id target cursor = do
    reject_if (ltb (length frame) (cursor + 2)) invalid_frame
    relay_ip_len ← read_u16 frame cursor
    let at_ip = cursor + 2
    reject_if (ltb (length frame) (at_ip + relay_ip_len + 2 + 4)) invalid_frame
    bytes ← slice frame at_ip (at_ip + relay_ip_len)
    written ← ok_or (from_utf8 bytes) invalid_frame
    relay_ip ← ok_or (parse written) invalid_frame
    let at_port = at_ip + relay_ip_len
    relay_port ← read_u16 frame at_port
    let at_length = at_port + 2
    length_bytes ← slice frame at_length (at_length + 4)
    let payload_len = from_be_bytes length_bytes
    let at_payload = at_length + 4
    reject_if (ltb (length frame) (at_payload + payload_len)) invalid_frame
    payload ← slice frame at_payload (at_payload + payload_len)
    ok (record {
      association_id = id;
      relay_client_addr = record { ip = relay_ip; port = relay_port };
      target = target;
      payload = payload;
    })

  unfoldable pub decode_datagram : List ℕ → Decoded DatagramEnvelope
  decode_datagram frame = do
    reject_if (ltb (length frame) (1 + 8 + 1)) invalid_frame
    version ← index frame 0
    reject_if (not (version == datagram_frame_version)) (invalid_version version)
    id ← slice frame 1 9
    kind ← index frame 9
    (target, cursor) ← decode_target frame 9 kind
    decode_relay frame (from_be_bytes id) target cursor

  -- `decode_message`: a WebSocket message is binary or it is not.
  unfoldable pub decode_message : Option (List ℕ) → Decoded DatagramEnvelope
  decode_message (some bytes) = decode_datagram bytes
  decode_message none = err non_binary_frame
