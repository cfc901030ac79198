-- ===== src/Session/Manager/Shutdown.antt =====
-- What `shutdown` of src/session/mod.rs leaves behind.
use newghost.Prelude.{
  ℕ, ◌+◌, ◌≡◌, refl, arith, ◌∙◌, false, none, some, List, [], ◌∷◌, length, ◌==◌, Bool-cases, inl,
  inr,
}
use newghost.Time.{Instant}
use newghost.Map
use newghost.Map.{Map}
use newghost.Session.Effects.{SessionId}
use newghost.Session.State.{closed}
use newghost.Session.Registry.{
  SessionRecord, SessionHandle, SessionRegistry, get, snapshot, with_record, drain_all, handles,
  session_count, available_slots,
}
use newghost.Session.Registry.Invariant.{Inv}
use newghost.Session.Registry.Sessions.{
  snapshot-with_record_self, snapshot-with_record_ne, with_record-sessions,
}
use newghost.Session.Manager.Defs.{SessionManager, shut_down, shut_down_all, shutdown}

-- A record that was shut down stays as it is.
shut_down_all-held :
    (hs : List SessionHandle) (now : Instant) (h : SessionHandle) (s : SessionRecord)
    (r : SessionRegistry)
    → snapshot h r ≡ some (shut_down now s)
    → snapshot h (shut_down_all hs now r) ≡ some (shut_down now s)
unfolding shut_down_all
shut_down_all-held [] now h s r held = held
shut_down_all-held (k ∷ hs) now h s r held =
    shut_down_all-held hs now h s (with_record k (shut_down now) r) (elim (Bool-cases (k == h)) [
      | inl same ↦
          let one : k ≡ h = ground (arith, same) in
          rw one (
            snapshot-with_record_self r h (shut_down now) (shut_down now s) held
            ∙ (unfold shut_down in refl))
      | inr other ↦ snapshot-with_record_ne r k h (shut_down now) (ground (arith, other)) ∙ held
    ])

shut_down_all-stored :
    (m : Map SessionHandle) (now : Instant) (id : SessionId) (h : SessionHandle) (s : SessionRecord)
    (r : SessionRegistry)
    → Map.lookup id m ≡ some h
    → snapshot h r ≡ some s
    → snapshot h (shut_down_all (handles m) now r) ≡ some (shut_down now s)
unfolding shut_down_all Map.lookup
shut_down_all-stored [] now id h s r found held = cc
shut_down_all-stored ((i, k) ∷ m) now id h s r found held = elim (Bool-cases (k == h)) [
  | inl same ↦
      let one : k ≡ h = ground (arith, same) in
      shut_down_all-held (handles m) now h s (with_record k (shut_down now) r)
        (rw one (snapshot-with_record_self r h (shut_down now) s held))
  | inr other ↦
      shut_down_all-stored m now id h s (with_record k (shut_down now) r) (ground (arith, other))
        (snapshot-with_record_ne r k h (shut_down now) (ground (arith, other)) ∙ held)
]

shut_down_all-counts :
    (hs : List SessionHandle) (now : Instant) (r : SessionRegistry)
    → ((shut_down_all hs now r).sessions ≡ r.sessions)
      × ((shut_down_all hs now r).available ≡ r.available)
unfolding shut_down_all
shut_down_all-counts [] now r = (refl, refl)
shut_down_all-counts (k ∷ hs) now r =
    let (sessions, slots) = shut_down_all-counts hs now (with_record k (shut_down now) r) in
    let (sessions', slots') = with_record-sessions k (shut_down now) r in
    (sessions ∙ sessions', slots ∙ slots')

length-handles : (m : Map SessionHandle) → length (handles m) ≡ length m
length-handles [] = refl
length-handles ((i, h) ∷ m) = omega (arith, length-handles m)

-- On a registry that keeps its invariant, `shutdown` reports as many sessions as were stored,
-- empties the registry and gives every slot back that no reservation holds.
pub shutdown_lem :
    {max guards : ℕ} (now : Instant) (m : SessionManager)
    → Inv max guards m.registry
    → let m' = (shutdown now m).1 in
      ((shutdown now m).0 ≡ session_count m.registry)
      × (session_count m'.registry ≡ 0)
      × (available_slots m'.registry + guards ≡ max)
unfolding shutdown drain_all session_count available_slots
shutdown_lem now m v =
    let (sessions, slots) =
      shut_down_all-counts (handles m.registry.sessions) now (drain_all m.registry).1 in
    (length-handles m.registry.sessions, rw sessions refl, omega (arith, slots, v.permits))

-- The handle of each session that was stored reads, after `shutdown`, a record that is closed,
-- takes no new streams and has the clock of the call as its last activity, while the registry no
-- longer finds the session.
pub shutdown_closes :
    (now : Instant) (m : SessionManager) (id : SessionId) (h : SessionHandle) (s : SessionRecord)
    → get id m.registry ≡ some h
    → snapshot h m.registry ≡ some s
    → let m' = (shutdown now m).1 in
      (snapshot h m'.registry
        ≡ some (record { state = closed; accepting_new_streams = false; last_activity = now }))
      × (get id m'.registry ≡ none)
unfolding shutdown drain_all get shut_down
shutdown_closes now m id h s found held =
    let (sessions, _) =
      shut_down_all-counts (handles m.registry.sessions) now (drain_all m.registry).1 in
    (
      shut_down_all-stored m.registry.sessions now id h s (drain_all m.registry).1 found held,
      rw sessions (unfold Map.lookup in refl),
    )
