-- ===== src/ProxyBridge/UdpRelay.antt =====
-- src/proxy_bridge/udp_relay.rs: the server's socket for one datagram. What the operating system
-- and the resolver do is the argument `Egress`.
use Prim.Native.String.{String}
use newghost.Prelude.{
  ℕ, ◌≡◌, ◌↔◌, refl, sym, ap, ◌∙◌, Bool, true, false, not, Option, none, some, List, [], ◌∷◌, ◌⊎◌,
  inl, inr, length,
}
use newghost.Prelude.Outcome.{Outcome, ok, err, ◌>>=◌, ◌>>◌, reject_if, >>=-eq-ok}
use newghost.Net.{SocketAddr, addr_eq, addr_eq_iff}
use newghost.Datagram.Contract.{DatagramAssociationId, DatagramTarget, ip, domain, DatagramEnvelope}

pub data UdpRelayError : Type 0 where
  resolve_failed bind_failed send_failed receive_failed : String → UdpRelayError
  unexpected_source : SocketAddr → SocketAddr → UdpRelayError

pub record UdpRelayRecord : Type 0 where
  pub association_id : DatagramAssociationId
  pub relay_local_addr : SocketAddr
  pub relay_client_addr : SocketAddr
  pub remote_peer : SocketAddr
  pub outbound_target : DatagramTarget
  pub last_sent_payload_len : ℕ

abbrev pub Relayed : Type 0 → Type 0
Relayed A = Outcome UdpRelayError A

-- `lookup_host`, the bind with the socket's own address, and the failure of the send.
pub record Egress : Type 0 where
  pub lookup_host : List ℕ → ℕ → List SocketAddr ⊎ String
  pub bind : SocketAddr ⊎ String
  pub send_to : List ℕ → SocketAddr → Option String

abbrev first_of : List SocketAddr ⊎ String → Relayed SocketAddr
first_of (inr e) = err (resolve_failed e)
first_of (inl []) = err (resolve_failed "no resolved UDP target")
first_of (inl (addr ∷ addrs)) = ok addr

unfoldable pub resolve_target : Egress → DatagramTarget → Relayed SocketAddr
resolve_target egress (ip addr) = ok addr
resolve_target egress (domain name port) = first_of (egress.lookup_host name port)

abbrev bound_to : SocketAddr ⊎ String → Relayed SocketAddr
bound_to (inl addr) = ok addr
bound_to (inr e) = err (bind_failed e)

abbrev went : Option String → Relayed (Unit {0})
went none = ok tt
went (some e) = err (send_failed e)

unfoldable pub relay_outbound_datagram : Egress → DatagramEnvelope → Relayed UdpRelayRecord
unfolding resolve_target
relay_outbound_datagram egress envelope = do
  remote_peer ← resolve_target egress envelope.target
  relay_local_addr ← bound_to egress.bind
  went (egress.send_to envelope.payload remote_peer)
  ok (record {
    association_id = envelope.association_id;
    relay_local_addr = relay_local_addr;
    relay_client_addr = envelope.relay_client_addr;
    remote_peer = remote_peer;
    outbound_target = envelope.target;
    last_sent_payload_len = length envelope.payload;
  })

abbrev pub reply_of : UdpRelayRecord → List ℕ → DatagramEnvelope
reply_of relay payload = record {
  association_id = relay.association_id;
  relay_client_addr = relay.relay_client_addr;
  target = relay.outbound_target;
  payload = payload;
}

-- What `recv_from` of the relay socket returns, a payload and its source or an error.
unfoldable pub relay_inbound_datagram :
    UdpRelayRecord → (List ℕ × SocketAddr) ⊎ String → Relayed DatagramEnvelope
relay_inbound_datagram relay (inr e) = err (receive_failed e)
relay_inbound_datagram relay (inl (payload, source)) = do
  reject_if (not (addr_eq source relay.remote_peer)) (unexpected_source relay.remote_peer source)
  ok (reply_of relay payload)

pub reply_of-relay :
    (egress : Egress) (e : DatagramEnvelope) (relay : UdpRelayRecord) (payload : List ℕ)
    → relay_outbound_datagram egress e ≡ ok relay
    → reply_of relay payload ≡ record e { payload = payload }
unfolding relay_outbound_datagram
reply_of-relay egress e relay payload out =
    let (peer, _, h) = >>=-eq-ok (resolve_target egress e.target) _ out in
    let (local, _, h') = >>=-eq-ok (bound_to egress.bind) _ h in
    let (_, _, made) = >>=-eq-ok (went (egress.send_to e.payload peer)) _ h' in
    let relay' : UdpRelayRecord = record {
      association_id = e.association_id;
      relay_local_addr = local;
      relay_client_addr = e.relay_client_addr;
      remote_peer = peer;
      outbound_target = e.target;
      last_sent_payload_len = length e.payload;
    } in
    let same : relay' ≡ relay = cc made in
    ap (λ (r : UdpRelayRecord). reply_of r payload) (sym same)

checked_iff :
    (good : Bool) (why : UdpRelayError) (value inbound : DatagramEnvelope)
    → ((reject_if (not good) why >> ok value) ≡ ok inbound) ↔ ((good ≡ true) × (inbound ≡ value))
checked_iff true why value inbound = (λ h. (refl, cc h), λ h. ap ok (sym h.1))
checked_iff false why value inbound = (λ h. cc h, λ h. cc h.0)

-- An answer is taken exactly where it comes from the peer that the datagram went to; it then
-- carries the association, the client and the target of that datagram.
pub relay_inbound_datagram_accepts :
    (egress : Egress) (e inbound : DatagramEnvelope) (relay : UdpRelayRecord) (payload : List ℕ)
    (source : SocketAddr)
    → relay_outbound_datagram egress e ≡ ok relay
    → (relay_inbound_datagram relay (inl (payload, source)) ≡ ok inbound)
      ↔ ((source ≡ relay.remote_peer) × (inbound ≡ record e { payload = payload }))
unfolding relay_inbound_datagram
relay_inbound_datagram_accepts egress e inbound relay payload source out =
    let kept = reply_of-relay egress e relay payload out in
    let (forward, back) =
      checked_iff (addr_eq source relay.remote_peer) (unexpected_source relay.remote_peer source)
        (reply_of relay payload) inbound in
    let peer = addr_eq_iff source relay.remote_peer in
    (
      λ taken. (peer.0 (forward taken).0, (forward taken).1 ∙ kept),
      λ same. back (peer.1 same.0, same.1 ∙ sym kept),
    )
