-- ===== src/Session/DatagramManager/Invariant.antt =====
-- Each call of the datagram manager keeps the invariant of the UDP registry.
use newghost.Prelude.{ℕ, ◌≡◌, refl, subst, List, ◌∷◌, ◌==◌, Option-cases, Bool-cases, inl, inr}
use newghost.Prelude.Outcome.{ok, err, panic, Outcome-cases}
use newghost.Time.{Instant}
use newghost.Net.{SocketAddr}
use newghost.Datagram.Contract.{DatagramAssociationId, DatagramTarget, DatagramEnvelope, validate}
use newghost.Session.UdpRegistry.{UdpAssociationRecord, get_association, find_by_endpoints}
use newghost.Session.UdpRegistry.Cases.{
  open_association_full, open_association_free, touch_association_gone, touch_association_found,
  close_association_gone, close_association_found,
}
use newghost.Session.UdpRegistry.Invariant.{UdpInv, open-UdpInv, touch-UdpInv, close-UdpInv}
use newghost.Session.DatagramManager.Defs.{
  DispatchTarget, DatagramSessionManager, Answer, dispatched, after_ensure, open_owned, touched,
  ensure_outbound_association, forward_outbound_datagram, returning, dispatch_valid,
  accept_outbound_datagram, close_owned,
}

pub touched-UdpInv :
    {A : Type 0} {max : ℕ} (id now : ℕ) (m : DatagramSessionManager)
    (rest : DatagramSessionManager → Answer A)
    → UdpInv max m.registry
    → ((m' : DatagramSessionManager) → UdpInv max m'.registry → UdpInv max (rest m').1.registry)
    → UdpInv max (touched id now m rest).1.registry
unfolding touched
touched-UdpInv {max = max} id now m rest v keeps =
    elim (Option-cases (get_association id m.registry)) [
      | inl gone ↦ rw (touch_association_gone id now m.registry gone, touched) v
      | inr (stored, found) ↦
          let e = touch_association_found id now m.registry stored found in
          rw (e, touched) (keeps _ (subst (λ p. UdpInv max p.1) e (touch-UdpInv id now v)))
    ]

pub open_owned-UdpInv :
    {max : ℕ} (relay client : SocketAddr) (now : Instant) (m : DatagramSessionManager)
    → UdpInv max m.registry
    → UdpInv max (open_owned relay client now m).1.registry
unfolding open_owned
open_owned-UdpInv {max} relay client now m v = elim (Bool-cases (m.registry.available == 0)) [
  | inl full ↦ rw (open_association_full relay client now m.registry full, open_owned) v
  | inr free ↦
      let e = open_association_free relay client now m.registry free in
      rw (e, open_owned) (subst (λ p. UdpInv max p.1) e (open-UdpInv relay client now v))
]

pub ensure-UdpInv :
    {max : ℕ} (relay client : SocketAddr) (now : Instant) (m : DatagramSessionManager)
    → UdpInv max m.registry
    → UdpInv max (ensure_outbound_association relay client now m).1.registry
unfolding ensure_outbound_association
ensure-UdpInv relay client now m v =
    elim (Option-cases (find_by_endpoints relay client m.registry)) [
      | inl absent ↦
          rw (absent, ensure_outbound_association) (open_owned-UdpInv relay client now m v)
      | inr (found, e) ↦
          rw (e, ensure_outbound_association)
            (touched-UdpInv found.0 now m
              (λ m'. (ok (found.0, record found.1 { last_activity = now }), m')) v (λ m' v'. v'))
    ]

pub forward_outbound-UdpInv :
    {max : ℕ} (outbound_target : DispatchTarget) (envelope : DatagramEnvelope) (now : Instant)
    (m : DatagramSessionManager)
    → UdpInv max m.registry
    → UdpInv max (forward_outbound_datagram outbound_target envelope now m).1.registry
unfolding forward_outbound_datagram
forward_outbound-UdpInv outbound_target envelope now m v =
    touched-UdpInv envelope.association_id now m
      (λ m'. (
        dispatched (outbound_target m'.outbound_log envelope),
        record m' { outbound_log = envelope ∷ m'.outbound_log },
      ))
      v (λ m' v'. v')

returning-same :
    (envelope : DatagramEnvelope) (answer : Answer (Unit {0}))
    → (returning envelope answer).1 ≡ answer.1
returning-same envelope (ok u, m) = refl
returning-same envelope (err e, m) = refl
returning-same envelope (panic, m) = refl

dispatch_valid-UdpInv :
    {max : ℕ} (outbound_target : DispatchTarget) (envelope : DatagramEnvelope) (now : Instant)
    (m : DatagramSessionManager)
    → UdpInv max m.registry
    → UdpInv max (dispatch_valid outbound_target envelope now m).1.registry
unfolding dispatch_valid
dispatch_valid-UdpInv outbound_target envelope now m v = elim (Outcome-cases (validate envelope)) [
  | inl (u, e) ↦
      rw (e, dispatch_valid)
        (rw (returning-same envelope (forward_outbound_datagram outbound_target envelope now m))
          (forward_outbound-UdpInv outbound_target envelope now m v))
  | inr (inl (d, e)) ↦ rw (e, dispatch_valid) v
  | inr (inr e) ↦ rw (e, dispatch_valid) v
]

after_ensure-UdpInv :
    {max : ℕ} (outbound_target : DispatchTarget) (client : SocketAddr) (target : DatagramTarget)
    (payload : List ℕ) (now : Instant)
    (answer : Answer (DatagramAssociationId × UdpAssociationRecord))
    → UdpInv max answer.1.registry
    → UdpInv max (after_ensure outbound_target client target payload now answer).1.registry
after_ensure-UdpInv outbound_target client target payload now (ok (id, stored), m) v =
    dispatch_valid-UdpInv outbound_target _ now m v
after_ensure-UdpInv outbound_target client target payload now (err e, m) v = v
after_ensure-UdpInv outbound_target client target payload now (panic, m) v = v

pub accept-UdpInv :
    {max : ℕ} (outbound_target : DispatchTarget) (relay client : SocketAddr)
    (target : DatagramTarget) (payload : List ℕ) (now : Instant) (m : DatagramSessionManager)
    → UdpInv max m.registry
    → UdpInv max
        (accept_outbound_datagram outbound_target relay client target payload now m).1.registry
unfolding accept_outbound_datagram
accept-UdpInv outbound_target relay client target payload now m v =
    after_ensure-UdpInv outbound_target client target payload now
      (ensure_outbound_association relay client now m) (ensure-UdpInv relay client now m v)

pub close_owned-UdpInv :
    {max : ℕ} (id : ℕ) (m : DatagramSessionManager)
    → UdpInv max m.registry
    → UdpInv max (close_owned id m).1.registry
unfolding close_owned
close_owned-UdpInv {max} id m v = elim (Option-cases (get_association id m.registry)) [
  | inl gone ↦ rw (close_association_gone id m.registry gone, close_owned) v
  | inr (stored, found) ↦
      let e = close_association_found id m.registry stored found in
      rw (e, close_owned) (subst (λ p. UdpInv max p.1) e (close-UdpInv id v))
]
