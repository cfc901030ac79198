-- ===== src/Datagram/Frame/RoundTrip.antt =====
-- Decoding an encoded datagram of src/wss_gateway/datagram.rs.
use newghost.Prelude.{
  ℕ, ◌+◌, ◌%◌, ◌^◌, ◌<◌, ◌≡◌, refl, arith, ◌∙◌, ap, subst, List, ◌∷◌, ◌++◌, append_assoc, length,
  length-append,
}
use newghost.Prelude.Outcome.{ok, >>=-eq-ok}
use newghost.Net.{IsIp, IpText}
use newghost.Net.BigEndian.{to_be_bytes, from_be_bytes-to_be_bytes}
use newghost.Net.Cursor.{At, At-start, At-index, At-next, At-skip, At-slice}
use newghost.Datagram.Contract.{DatagramTarget, DatagramEnvelope}
use newghost.Datagram.Frame.Defs.{
  encode_target, encode_relay, encode_datagram, decode_relay, decode_datagram,
}
use newghost.Datagram.Frame.Targets.{
  in_bounds, read_u16-At, from_utf8_ok, FitsTarget, target_bytes, encode_target-eq, Encodable,
  encode_target_ok, decode_target-At,
}

-- What the fields' Rust types promise of an envelope.
pub record Fits (e : DatagramEnvelope) : Type 0 where
  pub id : e.association_id < 2 ^ 64
  pub relay_ip : IsIp e.relay_client_addr.ip
  pub relay_port : e.relay_client_addr.port < 2 ^ 16
  pub names : FitsTarget e.target
  pub size : length e.payload < 2 ^ 32

module _ (text : IpText) where
  open text use {to_text, parse, parse-to_text, is_utf8-to_text, length-to_text}

  decode_relay-At :
      (frame : List ℕ) (cursor id : ℕ) (target : DatagramTarget) (e : DatagramEnvelope)
      (extra : List ℕ)
      → Fits e
      → let name = to_text e.relay_client_addr.ip in
        At frame cursor (
          to_be_bytes 2 (length name)
          ++ (name
              ++ (to_be_bytes 2 e.relay_client_addr.port
                  ++ (to_be_bytes 4 (length e.payload) ++ (e.payload ++ extra)))))
        → decode_relay text frame id target cursor
          ≡ ok (record e { association_id = id; target = target })
  unfolding decode_relay
  decode_relay-At frame cursor id target e extra h at =
      let name = to_text e.relay_client_addr.ip in
      let short = length-to_text e.relay_client_addr.ip h.relay_ip in
      let at_ip = At-skip frame cursor (to_be_bytes 2 (length name)) _ at in
      let at_port = At-skip frame (cursor + 2) name _ at_ip in
      let at_length =
        At-skip frame (cursor + 2 + length name) (to_be_bytes 2 e.relay_client_addr.port) _
          at_port in
      let at_payload =
        At-skip frame (cursor + 2 + length name + 2) (to_be_bytes 4 (length e.payload)) _
          at_length in
      rw
        (
          in_bounds (cursor + 2) (length frame) (omega (arith, at.total)),
          read_u16-At frame cursor (length name) _ (omega (arith, short)) at,
          in_bounds (cursor + 2 + length name + 2 + 4) (length frame)
              (omega (arith, at_length.total)),
          At-slice frame (cursor + 2) name _ at_ip,
          from_utf8_ok name (is_utf8-to_text e.relay_client_addr.ip h.relay_ip),
          parse-to_text e.relay_client_addr.ip h.relay_ip,
          read_u16-At frame (cursor + 2 + length name) e.relay_client_addr.port _ h.relay_port
              at_port,
          At-slice frame (cursor + 2 + length name + 2) (to_be_bytes 4 (length e.payload)) _
              at_length,
          from_be_bytes-to_be_bytes 4 (length e.payload) h.size,
          in_bounds (cursor + 2 + length name + 2 + 4 + length e.payload) (length frame)
              (omega (arith, at_payload.total, length-append e.payload extra)),
          At-slice frame (cursor + 2 + length name + 2 + 4) e.payload extra at_payload,
        )
        refl

  -- The bytes of the relay address and the payload.
  abbrev relay_bytes : DatagramEnvelope → List ℕ
  relay_bytes e =
      let name = to_text e.relay_client_addr.ip in
      to_be_bytes 2 (length name)
      ++ (name
          ++ (to_be_bytes 2 e.relay_client_addr.port
              ++ (to_be_bytes 4 (length e.payload) ++ e.payload)))

  abbrev tail_bytes : DatagramEnvelope → List ℕ → List ℕ
  tail_bytes e extra =
      let name = to_text e.relay_client_addr.ip in
      to_be_bytes 2 (length name)
      ++ (name
          ++ (to_be_bytes 2 e.relay_client_addr.port
              ++ (to_be_bytes 4 (length e.payload) ++ (e.payload ++ extra))))

  encode_relay-eq : (e : DatagramEnvelope) → Fits e → encode_relay text e ≡ ok (relay_bytes e)
  unfolding encode_relay
  encode_relay-eq e h =
      let name = to_text e.relay_client_addr.ip in
      let short = length-to_text e.relay_client_addr.ip h.relay_ip in
      let wraps : length name % 2 ^ 16 ≡ length name = omega (arith, short) in
      let sized : length e.payload % 2 ^ 32 ≡ length e.payload = omega (arith, h.size) in
      rw (in_bounds (length name) 65_535 (omega (arith, short)), wraps, sized) refl

  encode_datagram-eq :
      (e : DatagramEnvelope) (bytes : List ℕ)
      → Fits e
      → encode_datagram text e ≡ ok bytes
      → (encode_target e.target ≡ ok (target_bytes e.target))
        × (bytes ≡ 1 ∷ (to_be_bytes 8 e.association_id ++ (target_bytes e.target ++ relay_bytes e)))
  unfolding encode_datagram
  encode_datagram-eq e bytes h encoded =
      let (target, of_target, rest) = >>=-eq-ok (encode_target e.target) _ encoded in
      let same = encode_target-eq e.target target of_target in
      let whole : ok (1 ∷ (to_be_bytes 8 e.association_id ++ (target ++ relay_bytes e)))
          ≡ ok bytes =
        rw (encode_relay-eq e h) at rest in
      (rw same at of_target, cc (whole, same))

  decode-encoded :
      (e : DatagramEnvelope) (bytes extra : List ℕ)
      → Fits e
      → encode_datagram text e ≡ ok bytes
      → decode_datagram text (bytes ++ extra) ≡ ok e
  unfolding decode_datagram
  decode-encoded e bytes extra h encoded =
      let frame = bytes ++ extra in
      let id = to_be_bytes 8 e.association_id in
      let (of_target, of_frame) = encode_datagram-eq e bytes h encoded in
      let parted : frame ≡ 1 ∷ (id ++ (target_bytes e.target ++ tail_bytes e extra)) =
        ap (λ (xs : List ℕ). xs ++ extra) of_frame ∙ simp append_assoc in
      let start = subst (λ xs. At frame 0 xs) parted (At-start frame) in
      let at_id = At-next frame 0 1 _ start in
      let at_target = At-skip frame 1 id _ at_id in
      let (kind, of_kind, target) =
        decode_target-At frame 9 e.target _ _ h.names of_target at_target in
      let at_relay = At-skip frame 9 (target_bytes e.target) _ at_target in
      rw
        (
          in_bounds 10 (length frame) (omega (arith, at_relay.total)),
          At-index frame 0 1 _ start,
          At-slice frame 1 id _ at_id,
          of_kind,
          target,
          from_be_bytes-to_be_bytes 8 e.association_id h.id,
        )
        (decode_relay-At frame (9 + length (target_bytes e.target)) e.association_id e.target e
          extra h at_relay)

  encode_datagram_ok :
      (e : DatagramEnvelope)
      → Fits e
      → Encodable e.target
      → (bytes : List ℕ) × (encode_datagram text e ≡ ok bytes)
  unfolding encode_datagram
  encode_datagram_ok e fits can =
      let (target, of_target) = encode_target_ok e.target can in
      (
        1 ∷ (to_be_bytes 8 e.association_id ++ (target ++ relay_bytes e)),
        rw (of_target, encode_relay-eq e fits) refl,
      )

  -- An envelope whose fields fit their Rust types and whose target the frame can carry is encoded,
  -- and the decoder reads it back from the frame, whatever bytes follow.
  pub decode-encode :
      (e : DatagramEnvelope) (extra : List ℕ)
      → Fits e
      → Encodable e.target
      → (bytes : List ℕ) × (encode_datagram text e ≡ ok bytes)
        × (decode_datagram text (bytes ++ extra) ≡ ok e)
  decode-encode e extra fits can =
      let (bytes, encoded) = encode_datagram_ok e fits can in
      (bytes, encoded, decode-encoded e bytes extra fits encoded)
