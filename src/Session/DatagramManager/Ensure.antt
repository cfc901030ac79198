-- ===== src/Session/DatagramManager/Ensure.antt =====
-- `ensure_outbound_association` of src/session/datagram_manager.rs: the association that it answers.
use newghost.Prelude.{
  ℕ, ◌<◌, ◌≡◌, refl, ap, subst, ◌∙◌, arith, true, false, Option, none, some, [], ◌∷◌, ◌==◌, ==_iff,
  Option-cases, Bool-cases, inl, inr,
}
use newghost.Prelude.Outcome.{ok}
use newghost.Time.{Instant}
use newghost.Map
use newghost.Map.{Map, Distinct, lookup-update_self, lookup-insert}
use newghost.Net.{SocketAddr, addr_eq_iff}
use newghost.Datagram.Contract.{DatagramAssociationId}
use newghost.Session.UdpRegistry.{
  UdpAssociationRecord, UdpAssociationRegistry, get_association, has_endpoints, find_stored,
  find_by_endpoints, touch, free_slots,
}
use newghost.Session.UdpRegistry.Cases.{
  open_association_free, opened_record, opened_registry, touch_association_found,
}
use newghost.Session.UdpRegistry.Invariant.{UdpInv}
use newghost.Session.DatagramManager.Defs.{
  DatagramSessionManager, touched, open_owned, ensure_outbound_association,
}

none-some : {A : Type 0} {o : Option A} {a : A} → o ≡ none → o ≡ some a → ⊥
none-some e h = cc (e, h)

-- What is found is stored under its key, and has the endpoints that were asked for.
found_stored :
    (relay client : SocketAddr) (m : Map UdpAssociationRecord) (id : ℕ) (a : UdpAssociationRecord)
    → Distinct m
    → find_stored relay client m ≡ some (id, a)
    → (Map.lookup id m ≡ some a) × (has_endpoints relay client a ≡ true)
unfolding find_stored Map.lookup
found_stored relay client [] id a d h = cc
found_stored relay client ((k, stored) ∷ m) id a d h =
    elim (Bool-cases (has_endpoints relay client stored)) [
      | inl hit ↦
          let e : some (k, stored) ≡ some (id, a) = rw hit at h in
          let key : k ≡ id = cc e in
          let same : stored ≡ a = cc e in
          (
            rw ((==_iff k id).1 key) (ap some same),
            subst (λ s. has_endpoints relay client s ≡ true) same hit,
          )
      | inr miss ↦
          let (held, hits) = found_stored relay client m id a d.1 (rw miss at h) in
          elim (Bool-cases (k == id)) [
            | inl hit ↦
                let gone : Map.lookup id m ≡ none = rw ((==_iff k id).0 hit) at d.0 in
                absurd (none-some gone held)
            | inr other ↦ (rw other held, hits)
          ]
    ]

endpoints_opened :
    (relay client : SocketAddr) (now : Instant) (a : UdpAssociationRecord)
    → has_endpoints relay client a ≡ true
    → touch now a ≡ opened_record relay client now
unfolding touch
endpoints_opened relay client now a h =
    let first = (addr_eq_iff a.relay_addr relay).0 (ground (arith, h)) in
    let second = (addr_eq_iff a.expected_client_addr client).0 (ground (arith, h)) in
    cc (first, second)

ensure_reuses :
    (relay client : SocketAddr) (now : Instant) (m : DatagramSessionManager) (id : ℕ)
    (a : UdpAssociationRecord)
    → find_by_endpoints relay client m.registry ≡ some (id, a)
    → get_association id m.registry ≡ some a
    → ensure_outbound_association relay client now m ≡ (
      ok (id, touch now a),
      record m {
        registry = record m.registry {
          associations = Map.update id (touch now) m.registry.associations;
        };
      },
    )
unfolding touch ensure_outbound_association
ensure_reuses relay client now m id a found held =
    rw (found, ensure_outbound_association)
      (rw (touch_association_found id now m.registry a held, touched) refl)

-- On a registry that keeps its invariant, with a slot free or an association of the same endpoints
-- open, the caller gets an association of these endpoints whose activity is this very instant, and
-- the registry has it so.
pub ensure_registers :
    {max : ℕ} (relay client : SocketAddr) (now : Instant) (m : DatagramSessionManager)
    → UdpInv max m.registry
    → (find_by_endpoints relay client m.registry ≡ none → 0 < free_slots m.registry)
    → (id : DatagramAssociationId) × (r : UdpAssociationRegistry) × (ensure_outbound_association
          relay client now m
        ≡ (ok (id, opened_record relay client now), record m { registry = r }))
      × (get_association id r ≡ some (opened_record relay client now))
unfolding find_by_endpoints free_slots get_association ensure_outbound_association
ensure_registers relay client now m v room =
    elim (Option-cases (find_stored relay client m.registry.associations)) [
      | inl absent ↦
          let id = m.registry.next_association_id in
          let free : (m.registry.available == 0) ≡ false = ground (arith, room absent) in
          (
            id,
            opened_registry relay client now m.registry,
            rw (absent, ensure_outbound_association)
                (unfold open_owned in
                  rw (open_association_free relay client now m.registry free, open_owned) refl),
            lookup-insert id id (opened_record relay client now) m.registry.associations
                ∙ rw ((==_iff id id).1 refl) refl,
          )
      | inr ((id, a), found) ↦
          let (held, hits) =
            found_stored relay client m.registry.associations id a v.distinct found in
          let fresh = endpoints_opened relay client now a hits in
          (
            id,
            record m.registry { associations = Map.update id (touch now) m.registry.associations },
            ensure_reuses relay client now m id a found held ∙ rw fresh refl,
            lookup-update_self id (touch now) m.registry.associations a held ∙ ap some fresh,
          )
    ]
