-- ===== src/Session/DatagramManager/History.antt =====
-- What the UDP registry guarantees over every history of calls of the datagram manager.
use newghost.Prelude.{ℕ, ◌+◌, ◌≡◌, List, [], ◌∷◌}
use newghost.Prelude.Outcome.{ok}
use newghost.Time.{Instant, Duration}
use newghost.Net.{SocketAddr}
use newghost.Datagram.Contract.{DatagramAssociationId, DatagramTarget, DatagramEnvelope}
use newghost.Session.UdpRegistry.{new_udp, reap_associations, association_count, free_slots}
use newghost.Session.UdpRegistry.Invariant.{UdpInv, new-UdpInv, reap-UdpInv}
use newghost.Session.DatagramManager.Defs.{
  DispatchTarget, DatagramSessionManager, dispatched, open_owned, touched,
  ensure_outbound_association, forward_outbound_datagram, forward_inbound_datagram,
  accept_outbound_datagram, close_owned,
}
use newghost.Session.DatagramManager.Invariant.{
  open_owned-UdpInv, touched-UdpInv, ensure-UdpInv, forward_outbound-UdpInv, accept-UdpInv,
  close_owned-UdpInv,
}

-- The calls that the manager's and the registry's callers make, in any order. `ensure` and `accept`
-- take the registry's lock more than once, so that another call can come in between: `open_new`
-- and `touch_known` are what one of them does under the lock, after a search that another call outdates.
pub data UdpOperation : Type 0 where
  open_new : SocketAddr → SocketAddr → Instant → UdpOperation
  touch_known : DatagramAssociationId → Instant → UdpOperation
  ensure : SocketAddr → SocketAddr → Instant → UdpOperation
  accept : SocketAddr → SocketAddr → DatagramTarget → List ℕ → Instant → UdpOperation
  forward_outbound forward_inbound : DatagramEnvelope → Instant → UdpOperation
  close : DatagramAssociationId → UdpOperation
  reap : Duration → Instant → UdpOperation

module _ (outbound_target inbound_target : DispatchTarget) where
  unfoldable pub udp_step : DatagramSessionManager → UdpOperation → DatagramSessionManager
  udp_step m (open_new relay client now) = (open_owned relay client now m).1
  udp_step m (touch_known id now) = (touched id now m (λ m'. (ok tt, m'))).1
  udp_step m (ensure relay client now) = (ensure_outbound_association relay client now m).1
  udp_step m (accept relay client target payload now) =
      (accept_outbound_datagram outbound_target relay client target payload now m).1
  udp_step m (forward_outbound envelope now) =
      (forward_outbound_datagram outbound_target envelope now m).1
  udp_step m (forward_inbound envelope now) =
      (forward_inbound_datagram inbound_target envelope now m).1
  udp_step m (close id) = (close_owned id m).1
  udp_step m (reap max_idle now) = record m {
    registry = (reap_associations max_idle now m.registry).1;
  }

  unfoldable pub udp_run : DatagramSessionManager → List UdpOperation → DatagramSessionManager
  unfolding udp_step
  udp_run m [] = m
  udp_run m (o ∷ os) = udp_run (udp_step m o) os

abbrev pub udp_start : ℕ → DatagramSessionManager
udp_start max = record { registry = new_udp max; outbound_log = []; inbound_log = [] }

module _ (outbound_target inbound_target : DispatchTarget) where
  udp_step-UdpInv :
      {max : ℕ} (m : DatagramSessionManager) (o : UdpOperation)
      → UdpInv max m.registry
      → UdpInv max (udp_step outbound_target inbound_target m o).registry
  unfolding udp_step forward_inbound_datagram
  udp_step-UdpInv m (open_new relay client now) v = open_owned-UdpInv relay client now m v
  udp_step-UdpInv m (touch_known id now) v =
      touched-UdpInv id now m (λ m'. (ok tt, m')) v (λ m' v'. v')
  udp_step-UdpInv m (ensure relay client now) v = ensure-UdpInv relay client now m v
  udp_step-UdpInv m (accept relay client target payload now) v =
      accept-UdpInv outbound_target relay client target payload now m v
  udp_step-UdpInv m (forward_outbound envelope now) v =
      forward_outbound-UdpInv outbound_target envelope now m v
  udp_step-UdpInv m (forward_inbound envelope now) v =
      touched-UdpInv envelope.association_id now m
        (λ m'. (
          dispatched (inbound_target m'.inbound_log envelope),
          record m' { inbound_log = envelope ∷ m'.inbound_log },
        ))
        v (λ m' v'. v')
  udp_step-UdpInv m (close id) v = close_owned-UdpInv id m v
  udp_step-UdpInv m (reap max_idle now) v = reap-UdpInv max_idle now v

  pub udp_run-UdpInv :
      {max : ℕ} (m : DatagramSessionManager) (os : List UdpOperation)
      → UdpInv max m.registry
      → UdpInv max (udp_run outbound_target inbound_target m os).registry
  unfolding udp_run
  udp_run-UdpInv m [] v = v
  udp_run-UdpInv m (o ∷ os) v =
      udp_run-UdpInv (udp_step outbound_target inbound_target m o) os (udp_step-UdpInv m o v)

-- After every history on a new manager, of whole calls (open, ensure, accept, both forwards, close
-- and the registry's reaping) and of the single openings and touches that calls at the same time
-- interleave, whatever the dispatch targets answer, the free slots and the open associations add up
-- to the capacity.
pub udp_run_capacity :
    (outbound_target inbound_target : DispatchTarget) (max_associations : ℕ)
    (os : List UdpOperation)
    → let r = (udp_run outbound_target inbound_target (udp_start max_associations) os).registry in
      free_slots r + association_count r ≡ max_associations
unfolding free_slots association_count
udp_run_capacity outbound_target inbound_target max_associations os =
    (udp_run-UdpInv outbound_target inbound_target (udp_start max_associations) os
      (new-UdpInv max_associations)).permits
