-- ===== src/Session/DatagramManager/Dispatch.antt =====
-- What becomes of a datagram that the manager of src/session/datagram_manager.rs accepts.
use Prim.Native.String.{String}
use newghost.Prelude.{ℕ, ◌≤◌, ◌<◌, ◌≡◌, refl, ap, ◌∙◌, arith, Option, none, some, List, ◌∷◌, length}
use newghost.Prelude.Outcome.{Outcome, ok, err}
use newghost.Time.{Instant}
use newghost.Map
use newghost.Map.{Map, Distinct, lookup-update_self, lookup-insert}
use newghost.Net.{SocketAddr}
use newghost.Datagram.Contract.{
  DatagramAssociationId, DatagramTarget, DatagramEnvelope, payload_too_large, NamesTarget,
  max_datagram_payload_bytes, validate, validate_iff,
}
use newghost.Session.UdpRegistry.{
  UdpAssociationRecord, get_association, find_by_endpoints, touch, free_slots,
}
use newghost.Session.UdpRegistry.Cases.{
  opened_record, touch_association_found, touch_association_gone,
}
use newghost.Session.UdpRegistry.Invariant.{UdpInv}
use newghost.Session.DatagramManager.Defs.{
  DatagramSessionError, contract_violation, association_not_found, dispatch_failed, DispatchTarget,
  DatagramSessionManager, touched, map_not_found, ensure_outbound_association,
  forward_outbound_datagram, forward_inbound_datagram, returning, dispatched, dispatch_valid,
  accept_outbound_datagram,
}
use newghost.Session.DatagramManager.Ensure.{ensure_registers}

abbrev pub accepted :
    DatagramAssociationId → SocketAddr → DatagramTarget → List ℕ → DatagramEnvelope
accepted id client target payload = record {
  association_id = id;
  relay_client_addr = client;
  target = target;
  payload = payload;
}

accept_step :
    (outbound_target : DispatchTarget) (relay client : SocketAddr) (target : DatagramTarget)
    (payload : List ℕ) (now : Instant) (m m' : DatagramSessionManager) (id : ℕ)
    (stored : UdpAssociationRecord)
    → ensure_outbound_association relay client now m ≡ (ok (id, stored), m')
    → accept_outbound_datagram outbound_target relay client target payload now m
      ≡ dispatch_valid outbound_target (accepted id client target payload) now m'
unfolding accept_outbound_datagram
accept_step outbound_target relay client target payload now m m' id stored e =
    rw (e, accept_outbound_datagram) refl

forward_known :
    (outbound_target : DispatchTarget) (envelope : DatagramEnvelope) (now : Instant)
    (m : DatagramSessionManager) (stored : UdpAssociationRecord)
    → get_association envelope.association_id m.registry ≡ some stored
    → forward_outbound_datagram outbound_target envelope now m ≡ (
      dispatched (outbound_target m.outbound_log envelope),
      record m {
        registry = record m.registry {
          associations = Map.update envelope.association_id (touch now) m.registry.associations;
        };
        outbound_log = envelope ∷ m.outbound_log;
      },
    )
unfolding forward_outbound_datagram
forward_known outbound_target envelope now m stored held =
    rw (touch_association_found envelope.association_id now m.registry stored held, touched) refl

dispatch_valid_ok :
    (outbound_target : DispatchTarget) (envelope : DatagramEnvelope) (now : Instant)
    (m : DatagramSessionManager)
    → validate envelope ≡ ok tt
    → dispatch_valid outbound_target envelope now m
      ≡ returning envelope (forward_outbound_datagram outbound_target envelope now m)
unfolding dispatch_valid
dispatch_valid_ok outbound_target envelope now m valid = rw (valid, dispatch_valid) refl

-- The answer of an accepted datagram, by the error of the outbound target.
abbrev pub handed_answer :
    DatagramEnvelope → Option String → Outcome DatagramSessionError DatagramEnvelope
handed_answer envelope none = ok envelope
handed_answer envelope (some message) = err (dispatch_failed message)

returning-dispatched :
    (envelope : DatagramEnvelope) (failure : Option String) (m : DatagramSessionManager)
    → returning envelope (dispatched failure, m) ≡ (handed_answer envelope failure, m)
returning-dispatched envelope none m = refl
returning-dispatched envelope (some message) m = refl

-- On a registry that keeps its invariant, a datagram that meets the contract is handed to the
-- outbound target once, under the identifier of an association of its endpoints, if a slot is free
-- or the endpoints have an association; the answer is the envelope, or the error of the target.
pub accept_hands :
    {max : ℕ} (outbound_target : DispatchTarget) (relay client : SocketAddr)
    (target : DatagramTarget) (payload : List ℕ) (now : Instant) (m : DatagramSessionManager)
    → UdpInv max m.registry
    → (find_by_endpoints relay client m.registry ≡ none → 0 < free_slots m.registry)
    → length payload ≤ max_datagram_payload_bytes
    → NamesTarget target
    → let end = accept_outbound_datagram outbound_target relay client target payload now m in
      (id : DatagramAssociationId) × (end.0
        ≡ handed_answer
            (accepted id client target payload)
            (outbound_target m.outbound_log (accepted id client target payload)))
      × (end.1.outbound_log ≡ accepted id client target payload ∷ m.outbound_log)
      × (get_association id end.1.registry ≡ some (opened_record relay client now))
unfolding get_association
accept_hands outbound_target relay client target payload now m v room fits named =
    let (id, r, e, held) = ensure_registers relay client now m v room in
    let m' : DatagramSessionManager = record m { registry = r } in
    let sent = accepted id client target payload in
    let valid : validate sent ≡ ok tt = (validate_iff sent).1 (fits, named) in
    let step = accept_step outbound_target relay client target payload now m m' id _ e in
    let known = forward_known outbound_target sent now m' _ held in
    let whole = dispatch_valid_ok outbound_target sent now m' valid ∙ ap (returning sent) known in
    rw (step ∙ whole ∙ returning-dispatched sent (outbound_target m.outbound_log sent) _) (
      id,
      refl,
      refl,
      lookup-update_self id (touch now) r.associations _ held ∙ (unfold touch in refl),
    )

-- On a registry that keeps its invariant, a datagram that meets the contract is handed to the
-- outbound target once, under the identifier of an association of its endpoints, and is returned,
-- if a slot is free or the endpoints have an association and if the target takes it.
pub accept_delivers :
    {max : ℕ} (outbound_target : DispatchTarget) (relay client : SocketAddr)
    (target : DatagramTarget) (payload : List ℕ) (now : Instant) (m : DatagramSessionManager)
    → UdpInv max m.registry
    → (find_by_endpoints relay client m.registry ≡ none → 0 < free_slots m.registry)
    → length payload ≤ max_datagram_payload_bytes
    → NamesTarget target
    → ((envelope : DatagramEnvelope) → outbound_target m.outbound_log envelope ≡ none)
    → let end = accept_outbound_datagram outbound_target relay client target payload now m in
      (id : DatagramAssociationId) × (end.0 ≡ ok (accepted id client target payload))
      × (end.1.outbound_log ≡ accepted id client target payload ∷ m.outbound_log)
      × (get_association id end.1.registry ≡ some (opened_record relay client now))
accept_delivers outbound_target relay client target payload now m v room fits named takes =
    let (id, returned, sent, held) =
      accept_hands outbound_target relay client target payload now m v room fits named in
    (id, returned ∙ ap (handed_answer (accepted id client target payload)) (takes _), sent, held)

-- On a registry that keeps its invariant, with a slot free or an association of the same endpoints
-- open, a payload that is too large is refused and handed to nobody, but afterwards an association
-- of its endpoints is open.
pub accept_refuses :
    {max : ℕ} (outbound_target : DispatchTarget) (relay client : SocketAddr)
    (target : DatagramTarget) (payload : List ℕ) (now : Instant) (m : DatagramSessionManager)
    → UdpInv max m.registry
    → (find_by_endpoints relay client m.registry ≡ none → 0 < free_slots m.registry)
    → max_datagram_payload_bytes < length payload
    → let end = accept_outbound_datagram outbound_target relay client target payload now m in
      (id : DatagramAssociationId) × (end.0 ≡ err (contract_violation payload_too_large))
      × (end.1.outbound_log ≡ m.outbound_log)
      × (get_association id end.1.registry ≡ some (opened_record relay client now))
unfolding dispatch_valid
accept_refuses outbound_target relay client target payload now m v room large =
    let (id, r, e, held) = ensure_registers relay client now m v room in
    let m' : DatagramSessionManager = record m { registry = r } in
    let sent = accepted id client target payload in
    let invalid : validate sent ≡ err payload_too_large =
      (unfold validate in ground (arith, large)) in
    let step = accept_step outbound_target relay client target payload now m m' id _ e in
    let whole : dispatch_valid outbound_target sent now m'
        ≡ (err (contract_violation payload_too_large), m') =
      rw (invalid, dispatch_valid) refl in
    rw (step ∙ whole) (id, refl, refl, held)

-- A datagram of an association that is not open is refused, in both directions, and nothing
-- changes.
pub forward_unknown :
    (target : DispatchTarget) (envelope : DatagramEnvelope) (now : Instant)
    (m : DatagramSessionManager)
    → get_association envelope.association_id m.registry ≡ none
    → (forward_outbound_datagram target envelope now m
        ≡ (err (association_not_found envelope.association_id), m))
      × (forward_inbound_datagram target envelope now m
          ≡ (err (association_not_found envelope.association_id), m))
unfolding forward_outbound_datagram forward_inbound_datagram map_not_found
forward_unknown target envelope now m gone =
    let e = touch_association_gone envelope.association_id now m.registry gone in
    (rw (e, touched) refl, rw (e, touched) refl)
