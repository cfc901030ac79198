-- ===== src/Session/DatagramManager/Defs.antt =====
-- src/session/datagram_manager.rs. The outbound and the inbound target are parameters: each answers
-- an envelope, given what it was sent before, with the text of its error or with nothing. The log of
-- the envelopes that were handed to them is part of the state, newest first.
use Prim.Native.String.{String}
use newghost.Prelude.{ℕ, Option, none, some, List, ◌∷◌}
use newghost.Prelude.Outcome.{Outcome, ok, err, panic}
use newghost.Time.{Instant}
use newghost.Net.{SocketAddr}
use newghost.Datagram.Contract.{
  DatagramAssociationId, DatagramTarget, DatagramEnvelope, DatagramError, validate,
}
use newghost.Session.UdpRegistry
use newghost.Session.UdpRegistry.{
  UdpAssociationRecord, UdpAssociationLimitReached, UdpAssociationNotFound, missing,
  UdpAssociationRegistry, find_by_endpoints, touch_association,
}

pub data DatagramSessionError : Type 0 where
  association_limit_reached : DatagramSessionError
  association_not_found : DatagramAssociationId → DatagramSessionError
  contract_violation : DatagramError → DatagramSessionError
  dispatch_failed : String → DatagramSessionError

-- `DatagramDispatchTarget`
abbrev pub DispatchTarget : Type 0
DispatchTarget = List DatagramEnvelope → DatagramEnvelope → Option String

pub record DatagramSessionManager : Type 0 where
  pub registry : UdpAssociationRegistry
  pub outbound_log : List DatagramEnvelope
  pub inbound_log : List DatagramEnvelope

abbrev pub Answer : Type 0 → Type 0
Answer A = Outcome DatagramSessionError A × DatagramSessionManager

unfoldable pub map_not_found : UdpAssociationNotFound → DatagramSessionError
map_not_found (missing id) = association_not_found id

abbrev pub opened_answer :
    DatagramSessionManager
    → Outcome UdpAssociationLimitReached (DatagramAssociationId × UdpAssociationRecord)
      × UdpAssociationRegistry
    → Answer (DatagramAssociationId × UdpAssociationRecord)
opened_answer m (ok opened, registry) = (ok opened, record m { registry = registry })
opened_answer m (err limit, registry) =
    (err association_limit_reached, record m { registry = registry })
opened_answer m (panic, registry) = (panic, record m { registry = registry })

-- `open_association`
unfoldable pub open_owned :
    SocketAddr
    → SocketAddr
    → Instant
    → DatagramSessionManager
    → Answer (DatagramAssociationId × UdpAssociationRecord)
open_owned relay client now m =
    opened_answer m (UdpRegistry.open_association relay client now m.registry)

abbrev pub after_touch :
    {A : Type 0}
    → DatagramSessionManager
    → (DatagramSessionManager → Answer A)
    → Outcome UdpAssociationNotFound (Unit {0}) × UdpAssociationRegistry
    → Answer A
after_touch m rest (ok u, registry) = rest (record m { registry = registry })
after_touch m rest (err e, registry) = (err (map_not_found e), record m { registry = registry })
after_touch m rest (panic, registry) = (panic, record m { registry = registry })

-- `self.registry.touch_association(id, now).map_err(map_not_found)?`, and then the rest.
unfoldable pub touched :
    {A : Type 0}
    → DatagramAssociationId
    → Instant
    → DatagramSessionManager
    → (DatagramSessionManager → Answer A)
    → Answer A
touched id now m rest = after_touch m rest (touch_association id now m.registry)

-- The call with no other call in between the search and the touch or the opening, which are two holds
-- of the registry's lock.
unfoldable pub ensure_outbound_association :
    SocketAddr
    → SocketAddr
    → Instant
    → DatagramSessionManager
    → Answer (DatagramAssociationId × UdpAssociationRecord)
unfolding open_owned touched
ensure_outbound_association relay client now m = elim (find_by_endpoints relay client m.registry) [
  | some (id, stored) ↦
      touched id now m (λ m'. (ok (id, record stored { last_activity = now }), m'))
  | none ↦ open_owned relay client now m
]

-- The end of a dispatch, by the error that the target returned.
abbrev pub dispatched : Option String → Outcome DatagramSessionError (Unit {0})
dispatched none = ok tt
dispatched (some message) = err (dispatch_failed message)

unfoldable pub forward_outbound_datagram :
    DispatchTarget → DatagramEnvelope → Instant → DatagramSessionManager → Answer (Unit {0})
unfolding touched
forward_outbound_datagram outbound_target envelope now m =
    touched envelope.association_id now m (λ m'. (
      dispatched (outbound_target m'.outbound_log envelope),
      record m' { outbound_log = envelope ∷ m'.outbound_log },
    ))

unfoldable pub forward_inbound_datagram :
    DispatchTarget → DatagramEnvelope → Instant → DatagramSessionManager → Answer (Unit {0})
unfolding touched
forward_inbound_datagram inbound_target envelope now m =
    touched envelope.association_id now m (λ m'. (
      dispatched (inbound_target m'.inbound_log envelope),
      record m' { inbound_log = envelope ∷ m'.inbound_log },
    ))

-- `self.forward_outbound_datagram(envelope.clone(), now).await?; Ok(envelope)`
abbrev pub returning : DatagramEnvelope → Answer (Unit {0}) → Answer DatagramEnvelope
returning envelope (ok u, m) = (ok envelope, m)
returning envelope (err e, m) = (err e, m)
returning envelope (panic, m) = (panic, m)

-- `envelope.validate()?`, and then the dispatch.
unfoldable pub dispatch_valid :
    DispatchTarget → DatagramEnvelope → Instant → DatagramSessionManager → Answer DatagramEnvelope
unfolding forward_outbound_datagram
dispatch_valid outbound_target envelope now m = elim (validate envelope) [
  | ok u ↦ returning envelope (forward_outbound_datagram outbound_target envelope now m)
  | err e ↦ (err (contract_violation e), m)
  | panic ↦ (panic, m)
]

abbrev pub after_ensure :
    DispatchTarget
    → SocketAddr
    → DatagramTarget
    → List ℕ
    → Instant
    → Answer (DatagramAssociationId × UdpAssociationRecord)
    → Answer DatagramEnvelope
after_ensure outbound_target client target payload now (ok (id, stored), m) =
    dispatch_valid outbound_target
      (record {
        association_id = id;
        relay_client_addr = client;
        target = target;
        payload = payload;
      })
      now m
after_ensure outbound_target client target payload now (err e, m) = (err e, m)
after_ensure outbound_target client target payload now (panic, m) = (panic, m)

unfoldable pub accept_outbound_datagram :
    DispatchTarget
    → SocketAddr
    → SocketAddr
    → DatagramTarget
    → List ℕ
    → Instant
    → DatagramSessionManager
    → Answer DatagramEnvelope
unfolding ensure_outbound_association
accept_outbound_datagram outbound_target relay client target payload now m =
    after_ensure outbound_target client target payload now
      (ensure_outbound_association relay client now m)

abbrev pub closed_answer :
    DatagramSessionManager
    → Outcome UdpAssociationNotFound UdpAssociationRecord × UdpAssociationRegistry
    → Answer UdpAssociationRecord
closed_answer m (ok stored, registry) = (ok stored, record m { registry = registry })
closed_answer m (err e, registry) = (err (map_not_found e), record m { registry = registry })
closed_answer m (panic, registry) = (panic, record m { registry = registry })

-- `close_association`
unfoldable pub close_owned :
    DatagramAssociationId → DatagramSessionManager → Answer UdpAssociationRecord
close_owned id m = closed_answer m (UdpRegistry.close_association id m.registry)
