-- ===== src/Session/DatagramManager/Bridge/Delivery.antt =====
-- A packet of a SOCKS5 client, from the relay's parser to the outbound target.
use Prim.Native.String.{String}
use newghost.Prelude.{
  Option, ℕ, ◌≡◌, ◌≢◌, ◌↔◌, ◌<◌, ◌≤◌, arith, refl, ap, ◌∙◌, none, some, List, ◌∷◌,
}
use newghost.Prelude.Outcome.{ok, err, panic}
use newghost.Time.{Instant, Duration}
use newghost.Net.{SocketAddr}
use newghost.Datagram.Contract.{DatagramAssociationId, DatagramEnvelope, validate_iff}
use newghost.Datagram.Relay.{parse_udp_datagram}
use newghost.Datagram.Relay.Safety.{parse_udp_datagram_accepts}
use newghost.Session.DatagramSelector.{
  PathCall, hangs, completes, breaks, answer_within, race, carry, emit_outbound_datagram,
}
use newghost.Session.UdpRegistry.{get_association, find_by_endpoints, free_slots}
use newghost.Session.UdpRegistry.Cases.{opened_record}
use newghost.Session.UdpRegistry.Invariant.{UdpInv}
use newghost.Session.DatagramManager.Defs.{DatagramSessionManager, Answer, accept_outbound_datagram}
use newghost.Session.DatagramManager.Dispatch.{accepted, handed_answer, accept_hands}
use newghost.Session.DatagramManager.Bridge.Defs.{
  bridged, failure_text, forward_runtime_datagram, dispatch, selector_target,
}

-- The dispatch to the selector does not panic.
dispatch-ne-panic :
    (timeout : Duration) (call : PathCall) (envelope : DatagramEnvelope)
    → dispatch timeout call envelope ≢ panic
unfolding dispatch emit_outbound_datagram carry race answer_within
dispatch-ne-panic timeout hangs envelope = ground arith
dispatch-ne-panic timeout (completes d) envelope = ground arith
dispatch-ne-panic timeout (breaks d text) envelope = ground arith

failure_text_iff :
    (shown : ℕ → String) (timeout : Duration) (call : PathCall) (envelope : DatagramEnvelope)
    → (failure_text shown (dispatch timeout call envelope) ≡ none)
      ↔ ((d : Duration) × (call ≡ completes d) × (d ≤ timeout))
unfolding dispatch emit_outbound_datagram carry race answer_within
failure_text_iff shown timeout hangs envelope = ((λ e. cc e), (λ (d, e, h). cc e))
failure_text_iff shown timeout (completes d) envelope = (
  (λ e. (d, refl, ground (arith, e))),
  (λ (d', e, h). let same : d ≡ d' = cc e in ground (arith, same, h)),
)
failure_text_iff shown timeout (breaks d text) envelope =
    ((λ e. ground (arith, e)), (λ (d, e, h). cc e))

selector_target_iff :
    (shown : ℕ → String) (timeout : Duration)
    (path : List DatagramEnvelope → DatagramEnvelope → PathCall) (log : List DatagramEnvelope)
    (envelope : DatagramEnvelope)
    → (selector_target shown timeout path log envelope ≡ none)
      ↔ ((d : Duration) × (path log envelope ≡ completes d) × (d ≤ timeout))
unfolding selector_target
selector_target_iff shown timeout path log envelope =
    failure_text_iff shown timeout (path log envelope) envelope

bridged_ok :
    (shown : ℕ → String) (answer : Answer DatagramEnvelope) (envelope : DatagramEnvelope)
    (failure : Option String)
    → answer.0 ≡ handed_answer envelope failure
    → (((bridged shown answer).0 ≡ ok tt) ↔ (failure ≡ none))
      × ((bridged shown answer).1 ≡ answer.1)
bridged_ok shown (ok returned, m) envelope none h = (((λ e. refl), (λ e. refl)), refl)
bridged_ok shown (ok returned, m) envelope (some message) h = cc h
bridged_ok shown (err e, m) envelope none h = cc h
bridged_ok shown (err e, m) envelope (some message) h = (((λ x. cc x), (λ x. cc x)), refl)
bridged_ok shown (panic, m) envelope none h = cc h
bridged_ok shown (panic, m) envelope (some message) h = cc h

-- On a registry that keeps its invariant, with a slot free or an association of the same endpoints
-- open: whatever packet the parser of the relay lets through, the selector is handed its target and
-- its payload once, under the identifier of an association of the client and of the relay that is
-- open with this activity. The forwarding succeeds exactly where the selector's path completes
-- within the timeout.
pub parse_udp_datagram-forwarded :
    {max : ℕ} (shown : ℕ → String) (timeout : Duration)
    (path : List DatagramEnvelope → DatagramEnvelope → PathCall) (relay source client : SocketAddr)
    (packet : List ℕ) (first : DatagramAssociationId) (envelope : DatagramEnvelope) (now : Instant)
    (m : DatagramSessionManager)
    → UdpInv max m.registry
    → (find_by_endpoints relay client m.registry ≡ none → 0 < free_slots m.registry)
    → parse_udp_datagram source client packet first ≡ ok envelope
    → let end =
        forward_runtime_datagram shown
          (selector_target shown timeout path)
          relay
          client
          envelope.target
          envelope.payload
          now
          m in
      (id : DatagramAssociationId) × (end.1.outbound_log
        ≡ accepted id client envelope.target envelope.payload ∷ m.outbound_log)
      × (get_association id end.1.registry ≡ some (opened_record relay client now))
      × ((end.0 ≡ ok tt) ↔ (
          (d : Duration) × (path m.outbound_log
              (accepted id client envelope.target envelope.payload)
            ≡ completes d)
          × (d ≤ timeout)))
unfolding forward_runtime_datagram
parse_udp_datagram-forwarded shown timeout path relay source client packet first envelope now m v
      room read =
    let (_, _, _, valid) = parse_udp_datagram_accepts source client packet first envelope read in
    let (fits, named) = (validate_iff envelope).0 valid in
    let target = selector_target shown timeout path in
    let (id, returned, sent, held) =
      accept_hands target relay client envelope.target envelope.payload now m v room fits named in
    let answer =
      accept_outbound_datagram target relay client envelope.target envelope.payload now m in
    let taken = accepted id client envelope.target envelope.payload in
    let (ends, kept) = bridged_ok shown answer taken (target m.outbound_log taken) returned in
    let carried = selector_target_iff shown timeout path m.outbound_log taken in
    (
      id,
      ap (λ e. e.outbound_log) kept ∙ sent,
      ap (λ e. get_association id e.registry) kept ∙ held,
      ((λ e. carried.0 (ends.0 e)), (λ h. ends.1 (carried.1 h))),
    )
