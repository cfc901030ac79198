-- ===== src/Session/UdpRegistry/Defs.antt =====
-- src/session/udp_registry.rs. The semaphore is the number of its free permits; a reservation and a
-- stored association hold one permit each. Each operation holds the lock for its whole body.
use newghost.Prelude.{
  ℕ, ◌+◌, ◌-◌, ◌%◌, ◌^◌, Bool, ◌&&◌, Option, none, some, List, [], ◌∷◌, length, ◌==◌, leb,
  if◌then◌else◌,
}
use newghost.Prelude.Outcome.{Outcome, ok, err}
use newghost.Time.{Instant, Duration, saturating_duration_since}
use newghost.Map
use newghost.Map.{Map}
use newghost.Net.{SocketAddr, addr_eq}
use newghost.Datagram.Contract.{DatagramAssociationId}

pub record UdpAssociationRecord : Type 0 where
  pub relay_addr : SocketAddr
  pub expected_client_addr : SocketAddr
  pub last_activity : Instant

pub data UdpAssociationLimitReached : Type 0 where
  at_capacity : UdpAssociationLimitReached

pub data UdpAssociationNotFound : Type 0 where
  missing : DatagramAssociationId → UdpAssociationNotFound

pub record UdpAssociationRegistry : Type 0 where
  pub associations : Map UdpAssociationRecord
  pub available : ℕ
  pub next_association_id : ℕ

unfoldable pub new_udp : ℕ → UdpAssociationRegistry
new_udp max_associations = record {
  associations = [];
  available = max_associations;
  next_association_id = 1;
}

-- `try_reserve`: the registry that is left with one permit less.
unfoldable pub reserve_slot :
    UdpAssociationRegistry → Outcome UdpAssociationLimitReached UdpAssociationRegistry
reserve_slot r =
    if r.available == 0 then err at_capacity else ok (record r { available = r.available - 1 })

-- The permits that go back when a stored association is dropped.
abbrev pub released : Option UdpAssociationRecord → ℕ
released none = 0
released (some stored) = 1

-- `fetch_add` wraps at 2⁶⁴; `HashMap::insert` drops the association that had the same identifier.
unfoldable pub store :
    UdpAssociationRecord → UdpAssociationRegistry → DatagramAssociationId × UdpAssociationRegistry
unfolding Map.lookup Map.insert
store new_record r =
    let id = r.next_association_id in
    let next : UdpAssociationRegistry = record {
      associations = Map.insert id new_record r.associations;
      available = r.available + released (Map.lookup id r.associations);
      next_association_id = (id + 1) % 2 ^ 64;
    } in
    (id, next)

-- The registry after the call comes with the answer; a call that fails changes nothing.
unfoldable pub open_association :
    SocketAddr
    → SocketAddr
    → Instant
    → UdpAssociationRegistry
    → Outcome UdpAssociationLimitReached (DatagramAssociationId × UdpAssociationRecord)
      × UdpAssociationRegistry
unfolding reserve_slot store
open_association relay_addr expected_client_addr now r =
    let opened : UdpAssociationRecord = record {
      relay_addr = relay_addr;
      expected_client_addr = expected_client_addr;
      last_activity = now;
    } in
    elim (reserve_slot r) [
      | ok r' ↦ (ok ((store opened r').0, opened), (store opened r').1)
      | err e ↦ (err e, r)
      | _ ↦ (err at_capacity, r)
    ]

unfoldable pub get_association :
    DatagramAssociationId → UdpAssociationRegistry → Option UdpAssociationRecord
unfolding Map.lookup
get_association id r = Map.lookup id r.associations

abbrev pub has_endpoints : SocketAddr → SocketAddr → UdpAssociationRecord → Bool
has_endpoints relay client stored =
    addr_eq stored.relay_addr relay && addr_eq stored.expected_client_addr client

-- `iter().find_map(…)`
unfoldable pub find_stored :
    SocketAddr
    → SocketAddr
    → Map UdpAssociationRecord
    → Option (DatagramAssociationId × UdpAssociationRecord)
find_stored relay client [] = none
find_stored relay client ((id, stored) ∷ m) =
    if has_endpoints relay client stored then some (id, stored) else find_stored relay client m

unfoldable pub find_by_endpoints :
    SocketAddr
    → SocketAddr
    → UdpAssociationRegistry
    → Option (DatagramAssociationId × UdpAssociationRecord)
unfolding find_stored
find_by_endpoints relay client r = find_stored relay client r.associations

unfoldable pub touch : Instant → UdpAssociationRecord → UdpAssociationRecord
touch now stored = record stored { last_activity = now }

unfoldable pub touch_association :
    DatagramAssociationId
    → Instant
    → UdpAssociationRegistry
    → Outcome UdpAssociationNotFound (Unit {0}) × UdpAssociationRegistry
unfolding get_association Map.update touch
touch_association id now r = elim (get_association id r) [
  | none ↦ (err (missing id), r)
  | some stored ↦ (ok tt, record r { associations = Map.update id (touch now) r.associations })
]

unfoldable pub close_association :
    DatagramAssociationId
    → UdpAssociationRegistry
    → Outcome UdpAssociationNotFound UdpAssociationRecord × UdpAssociationRegistry
unfolding get_association Map.remove
close_association id r = elim (get_association id r) [
  | none ↦ (err (missing id), r)
  | some stored ↦ (
    ok stored,
    record r { associations = Map.remove id r.associations; available = r.available + 1 },
  )
]

abbrev pub is_fresh : Duration → Instant → DatagramAssociationId → UdpAssociationRecord → Bool
is_fresh max_idle now id stored = leb (saturating_duration_since now stored.last_activity) max_idle

unfoldable pub reap_associations :
    Duration
    → Instant
    → UdpAssociationRegistry
    → List DatagramAssociationId × UdpAssociationRegistry
unfolding Map.retain Map.dropped
reap_associations max_idle now r =
    let removed = Map.dropped (is_fresh max_idle now) r.associations in
    let next = record r {
      associations = Map.retain (is_fresh max_idle now) r.associations;
      available = r.available + length removed;
    } in
    (removed, next)

unfoldable pub association_count : UdpAssociationRegistry → ℕ
association_count r = length r.associations

unfoldable pub free_slots : UdpAssociationRegistry → ℕ
free_slots r = r.available
