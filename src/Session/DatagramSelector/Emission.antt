-- ===== src/Session/DatagramSelector/Emission.antt =====
-- When an emission of src/session/datagram_transport_selector.rs ends, and when it succeeds.
use newghost.Prelude.{◌≤◌, ◌≡◌, ◌↔◌, refl, arith, none, some}
use newghost.Prelude.Outcome.{ok}
use newghost.Time.{Instant, Duration}
use newghost.Datagram.Contract.{DatagramEnvelope}
use newghost.Session.DatagramSelector.Defs.{
  DatagramTransportResolution, PathCall, hangs, completes, breaks, Interruption, answer_within,
  race, carry, resolution, select_transport, emit_outbound_datagram,
}

answer_within-le : (timeout : Duration) (call : PathCall) → (answer_within timeout call).1 ≤ timeout
unfolding answer_within
answer_within-le timeout hangs = omega arith
answer_within-le timeout (completes d) = ground arith
answer_within-le timeout (breaks d text) = ground arith

-- The selection of a carrier and an emission end within the carrier's timeout, whatever the
-- carrier and the token do.
pub emit_outbound_bounded :
    (timeout : Duration) (i : Interruption) (call : PathCall) (envelope : DatagramEnvelope)
    → ((emit_outbound_datagram timeout i call envelope).1 ≤ timeout)
      × ((select_transport timeout i call envelope.association_id).1 ≤ timeout)
unfolding emit_outbound_datagram select_transport carry race
emit_outbound_bounded timeout i call envelope = ground (arith, answer_within-le timeout call)

-- With no cancellation an emission succeeds exactly where the carrier completes within the
-- timeout, and its resolution names the envelope's association.
pub emit_outbound_uncancelled :
    (timeout : Duration) (i : Interruption) (d : Duration) (envelope : DatagramEnvelope)
    → i.cancel_at ≡ none
    → ((emit_outbound_datagram timeout i (completes d) envelope).0
        ≡ ok (resolution envelope.association_id))
      ↔ (d ≤ timeout)
unfolding emit_outbound_datagram carry race answer_within
emit_outbound_uncancelled timeout i d envelope h = ground arith

-- Where the token is cancelled at some instant, an emission that succeeds did so because the
-- carrier completed, within the timeout and no later than that instant; its resolution names the
-- envelope's association.
pub emit_outbound_ok :
    (timeout : Duration) (i : Interruption) (call : PathCall) (envelope : DatagramEnvelope)
    (c : Instant) (r : DatagramTransportResolution)
    → i.cancel_at ≡ some c
    → (emit_outbound_datagram timeout i call envelope).0 ≡ ok r
    → (d : Duration) × (call ≡ completes d)
      × (d ≤ timeout)
      × (d ≤ c)
      × (r.association_id ≡ envelope.association_id)
unfolding emit_outbound_datagram carry race answer_within
emit_outbound_ok timeout i hangs envelope c r h e = ground arith
emit_outbound_ok timeout i (completes d) envelope c r h e =
    (d, refl, ground arith, ground arith, ground arith)
emit_outbound_ok timeout i (breaks d text) envelope c r h e = ground arith
