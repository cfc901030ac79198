-- ===== src/Session/UdpRegistry/Invariant.antt =====
-- The invariant of the UDP registry: one permit for each association, and one entry for each
-- identifier.
use newghost.Prelude.{ℕ, ◌+◌, ◌≡◌, arith, some, ◌==◌, length, Option-cases, Bool-cases, inl, inr}
use newghost.Time.{Instant, Duration}
use newghost.Map
use newghost.Map.{
  Map, Distinct, remove-Distinct, insert-Distinct, update-Distinct, retain-Distinct, remove-none,
  length-remove, length-retain, length-update, lookup-remove, lookup-insert, lookup-update_self,
  lookup-update_ne, lookup-retain,
}
use newghost.Net.{SocketAddr}
use newghost.Session.UdpRegistry.Defs.{
  UdpAssociationRecord, UdpAssociationRegistry, new_udp, released, open_association,
  get_association, touch, touch_association, close_association, is_fresh, reap_associations,
}
use newghost.Session.UdpRegistry.Cases.{
  open_association_full, open_association_free, opened_record, touch_association_gone,
  touch_association_found, close_association_found, close_association_gone,
}

-- The registry of `max` permits.
pub record UdpInv (max : ℕ) (r : UdpAssociationRegistry) : Type 0 where
  pub distinct : Distinct r.associations
  pub permits : r.available + length r.associations ≡ max

pub new-UdpInv : (max : ℕ) → UdpInv max (new_udp max)
unfolding new_udp
new-UdpInv max = record { distinct = tt; permits = omega arith }

released-length :
    (id : ℕ) (m : Map UdpAssociationRecord)
    → Distinct m
    → length (Map.remove id m) + released (Map.lookup id m) ≡ length m
released-length id m d = elim (Option-cases (Map.lookup id m)) [
  | inl gone ↦ rw (gone, remove-none id m gone) (omega arith)
  | inr (stored, found) ↦ rw found (length-remove id m d found)
]

pub open-UdpInv :
    {max : ℕ} {r : UdpAssociationRegistry} (relay client : SocketAddr) (now : Instant)
    → UdpInv max r
    → UdpInv max (open_association relay client now r).1
unfolding Map.insert
open-UdpInv {r} relay client now v = elim (Bool-cases (r.available == 0)) [
  | inl full ↦ rw (open_association_full relay client now r full) v
  | inr free ↦
      let id = r.next_association_id in
      rw (open_association_free relay client now r free) (record {
        distinct = insert-Distinct id (opened_record relay client now) r.associations v.distinct;
        permits = ground (arith, released-length id r.associations v.distinct, v.permits);
      })
]

pub touch-UdpInv :
    {max : ℕ} {r : UdpAssociationRegistry} (id now : ℕ)
    → UdpInv max r
    → UdpInv max (touch_association id now r).1
touch-UdpInv {r} id now v = elim (Option-cases (get_association id r)) [
  | inl gone ↦ rw (touch_association_gone id now r gone) v
  | inr (stored, found) ↦ rw (touch_association_found id now r stored found) (record {
    distinct = update-Distinct id (touch now) r.associations v.distinct;
    permits = omega (arith, length-update id (touch now) r.associations, v.permits);
  })
]

pub close-UdpInv :
    {max : ℕ} {r : UdpAssociationRegistry} (id : ℕ)
    → UdpInv max r
    → UdpInv max (close_association id r).1
close-UdpInv {r} id v = elim (Option-cases (get_association id r)) [
  | inl gone ↦ rw (close_association_gone id r gone) v
  | inr (stored, found) ↦
      let held : Map.lookup id r.associations ≡ some stored = (unfold get_association in found) in
      rw (close_association_found id r stored found) (record {
        distinct = remove-Distinct id r.associations v.distinct;
        permits = omega (arith, length-remove id r.associations v.distinct held, v.permits);
      })
]

pub reap-UdpInv :
    {max : ℕ} {r : UdpAssociationRegistry} (max_idle : Duration) (now : Instant)
    → UdpInv max r
    → UdpInv max (reap_associations max_idle now r).1
unfolding reap_associations
reap-UdpInv {r} max_idle now v = record {
  distinct = retain-Distinct (is_fresh max_idle now) r.associations v.distinct;
  permits = omega (arith, length-retain (is_fresh max_idle now) r.associations, v.permits);
}
