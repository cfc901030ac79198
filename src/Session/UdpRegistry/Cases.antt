-- ===== src/Session/UdpRegistry/Cases.antt =====
-- What each call of the UDP registry comes to, by the cases of the code.
use newghost.Prelude.{ℕ, ◌+◌, ◌-◌, ◌%◌, ◌^◌, ◌≡◌, refl, true, false, none, some, ◌==◌}
use newghost.Prelude.Outcome.{ok, err}
use newghost.Time.{Instant}
use newghost.Map
use newghost.Net.{SocketAddr}
use newghost.Session.UdpRegistry.Defs.{
  UdpAssociationRecord, at_capacity, missing, UdpAssociationRegistry, reserve_slot, released, store,
  open_association, get_association, touch, touch_association, close_association,
}

reserve_slot_full :
    (r : UdpAssociationRegistry) → (r.available == 0) ≡ true → reserve_slot r ≡ err at_capacity
unfolding reserve_slot
reserve_slot_full r full = rw full refl

reserve_slot_free :
    (r : UdpAssociationRegistry)
    → (r.available == 0) ≡ false
    → reserve_slot r ≡ ok (record r { available = r.available - 1 })
unfolding reserve_slot
reserve_slot_free r free = rw free refl

-- The cases of `open_association`.
pub open_association_full :
    (relay client : SocketAddr) (now : Instant) (r : UdpAssociationRegistry)
    → (r.available == 0) ≡ true
    → open_association relay client now r ≡ (err at_capacity, r)
unfolding open_association
open_association_full relay client now r full = rw (reserve_slot_full r full, open_association) refl

abbrev pub opened_record : SocketAddr → SocketAddr → Instant → UdpAssociationRecord
opened_record relay client now = record {
  relay_addr = relay;
  expected_client_addr = client;
  last_activity = now;
}

abbrev pub opened_registry :
    SocketAddr → SocketAddr → Instant → UdpAssociationRegistry → UdpAssociationRegistry
opened_registry relay client now r =
    let id = r.next_association_id in
    record {
      associations = Map.insert id (opened_record relay client now) r.associations;
      available = r.available - 1 + released (Map.lookup id r.associations);
      next_association_id = (id + 1) % 2 ^ 64;
    }

pub open_association_free :
    (relay client : SocketAddr) (now : Instant) (r : UdpAssociationRegistry)
    → (r.available == 0) ≡ false
    → open_association relay client now r ≡ (
      ok (r.next_association_id, opened_record relay client now),
      opened_registry relay client now r,
    )
unfolding store open_association
open_association_free relay client now r free = rw (reserve_slot_free r free, open_association) refl

pub touch_association_gone :
    (id now : ℕ) (r : UdpAssociationRegistry)
    → get_association id r ≡ none
    → touch_association id now r ≡ (err (missing id), r)
unfolding touch_association
touch_association_gone id now r gone = rw (gone, touch_association) refl

pub touch_association_found :
    (id now : ℕ) (r : UdpAssociationRegistry) (stored : UdpAssociationRecord)
    → get_association id r ≡ some stored
    → touch_association id now r
      ≡ (ok tt, record r { associations = Map.update id (touch now) r.associations })
unfolding touch_association Map.update
touch_association_found id now r stored found = rw (found, touch_association) refl

pub close_association_found :
    (id : ℕ) (r : UdpAssociationRegistry) (stored : UdpAssociationRecord)
    → get_association id r ≡ some stored
    → close_association id r ≡ (
      ok stored,
      record r { associations = Map.remove id r.associations; available = r.available + 1 },
    )
unfolding close_association Map.remove
close_association_found id r stored found = rw (found, close_association) refl

pub close_association_gone :
    (id : ℕ) (r : UdpAssociationRegistry)
    → get_association id r ≡ none
    → close_association id r ≡ (err (missing id), r)
unfolding close_association
close_association_gone id r gone = rw (gone, close_association) refl
