-- ===== src/Gateway/Datagrams/RoundTrip.antt =====
-- One datagram of src/wss_gateway/mod.rs from the client over the server and back.
use newghost.Prelude.{
  ◌∷◌, ◌++◌, ℕ, ◌≡◌, refl, subst, ap, ◌∙◌, false, none, some, List, [], append-nil, inl, ==_iff,
}
use newghost.Prelude.Outcome.{ok}
use newghost.Net.{IpText, addr_eq_iff}
use newghost.Datagram.Contract.{DatagramEnvelope}
use newghost.Datagram.Frame.{encode_datagram, decode_datagram, decode_message}
use newghost.Datagram.Frame.RoundTrip.{Fits, decode-encode}
use newghost.Datagram.Frame.Targets.{Encodable}
use newghost.ProxyBridge.UdpRelay.{
  UdpRelayRecord, relay_outbound_datagram, relay_inbound_datagram, reply_of, reply_of-relay,
}
use newghost.Gateway.WebSocket.{Message, binary}
use newghost.Gateway.Datagrams.Defs.{Handler, answered, send_datagram, emit_datagram}
use newghost.Gateway.Datagrams.Server.{Exchange, serve_datagram}

inbound-peer :
    (relay : UdpRelayRecord) (payload : List ℕ)
    → relay_inbound_datagram relay (inl (payload, relay.remote_peer)) ≡ ok (reply_of relay payload)
unfolding relay_inbound_datagram
inbound-peer relay payload =
    let same = (addr_eq_iff relay.remote_peer relay.remote_peer).1 refl in rw same refl

module _ (text_of : IpText) where
  sent :
      (e : DatagramEnvelope)
      → Fits e
      → Encodable e.target
      → (bytes : List ℕ) × (encode_datagram text_of e ≡ ok bytes)
        × (decode_datagram text_of bytes ≡ ok e)
  sent e fits can =
      let (bytes, encoded, decoded) = decode-encode text_of e [] fits can in
      (bytes, encoded, subst (λ xs. decode_datagram text_of xs ≡ ok e) (append-nil bytes) decoded)

  served :
      (e : DatagramEnvelope) (exchange : Exchange) (relay : UdpRelayRecord)
      (payload bytes back : List ℕ) (sent_before : List UdpRelayRecord)
      → decode_datagram text_of bytes ≡ ok e
      → relay_outbound_datagram exchange.egress e ≡ ok relay
      → exchange.answer ≡ some (inl (payload, relay.remote_peer))
      → exchange.returns ≡ none
      → encode_datagram text_of (reply_of relay payload) ≡ ok back
      → serve_datagram text_of e.association_id (binary bytes) exchange sent_before
        ≡ (ok (record { relay = relay; reply = some (binary back) }), sent_before ++ relay ∷ [])
  unfolding serve_datagram decode_message send_datagram
  served e exchange relay payload bytes back sent_before decoded out answer takes encoded =
      let mine = (==_iff e.association_id e.association_id).1 refl in
      rw (decoded, mine, out, answer, inbound-peer relay payload, encoded, takes) refl

  -- A datagram whose fields fit their Rust types and whose target a frame can carry leaves the
  -- client as a message that the server, on the path of the datagram's association, relays once: where
  -- the socket of the relay gets it out and an answer comes from the very peer in time, the server
  -- returns a message from which the client's handler, where it takes the answer, gets the
  -- association, the client and the target of the datagram with the payload of the answer. The
  -- answer fits its types too, and the peers take both messages.
  pub emit_datagram-serve_datagram :
      (e : DatagramEnvelope) (exchange : Exchange) (relay : UdpRelayRecord) (payload : List ℕ)
      (handler : Handler) (sent_before : List UdpRelayRecord)
      → Fits e
      → Fits (record e { payload = payload })
      → Encodable e.target
      → relay_outbound_datagram exchange.egress e ≡ ok relay
      → exchange.answer ≡ some (inl (payload, relay.remote_peer))
      → exchange.returns ≡ none
      → handler (record e { payload = payload }) ≡ none
      → (request : Message) × (reply : Message) × (serve_datagram text_of e.association_id request
            exchange sent_before
          ≡ (ok (record { relay = relay; reply = some reply }), sent_before ++ relay ∷ []))
        × (emit_datagram text_of e none (some handler) (answered reply) false none
            ≡ ok (request, some (record e { payload = payload })))
  unfolding emit_datagram send_datagram decode_message
  emit_datagram-serve_datagram e exchange relay payload handler sent_before fits fits' can out
        answer takes accepts =
      let (bytes, encoded, decoded) = sent e fits can in
      let (back, encoded', decoded') = sent (record e { payload = payload }) fits' can in
      let reply = reply_of-relay exchange.egress e relay payload out in
      let of_reply = ap (encode_datagram text_of) reply ∙ encoded' in
      (
        binary bytes,
        binary back,
        served e exchange relay payload bytes back sent_before decoded out answer takes of_reply,
        rw (encoded, decoded', accepts) refl,
      )
