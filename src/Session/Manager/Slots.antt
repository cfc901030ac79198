-- ===== src/Session/Manager/Slots.antt =====
-- When a session gives its slot back: the registry of src/session/registry.rs under the events of
-- src/session/mod.rs.
use newghost.Prelude.{
  ℕ, zero, suc, ◌+◌, ◌≡◌, refl, arith, ◌∙◌, Bool, true, false, Option, none, some, List, [], ◌∷◌,
  if◌then◌else◌, ◌==◌, ◌&&◌, not,
}
use newghost.Prelude.Outcome.{ok}
use newghost.Time.{Instant, Duration}
use newghost.Map
use newghost.Map.{lookup-remove}
use newghost.Session.Effects.{
  SessionId, RegistryCommand, mark_no_new_streams, close_streams, SessionEffect, registry, timer,
  metric,
}
use newghost.Session.State.{SessionState, SessionEvent, transition}
use newghost.Session.State.Laws.{
  removals, is_closed, removes_one, effect_id, AllName, transition-AllName, transition-removals,
}
use newghost.Session.Registry.{
  SessionRecord, SessionHandle, get, remove, snapshot, with_record, freed, refuse_streams,
  shut_streams,
}
use newghost.Session.Registry.Sessions.{with_record-sessions, change_session-sessions}
use newghost.Session.Manager.Defs.{
  SessionManager, apply, apply_all, apply_event, handle_event, enter,
}

-- Whether a session is in the map, and how many slots are free, after effects that name it.
record Slot (id : SessionId) (found : Option SessionHandle) (free : ℕ) (m : SessionManager)
    : Type 0 where
  entry : Map.lookup id m.registry.sessions ≡ found
  free_slots : m.registry.available ≡ free

-- One effect: a `Remove` of the session that is there frees its slot, and nothing else does.
after_remove : ℕ → Option SessionHandle → Option SessionHandle
after_remove zero found = found
after_remove (suc n) found = none

abbrev gained : ℕ → Option SessionHandle → ℕ
gained n found = if n == 0 then 0 else freed found

apply-Slot :
    (e : SessionEffect) (id : SessionId) (now : Instant) (m : SessionManager)
    (found : Option SessionHandle) (free : ℕ)
    → effect_id e ≡ id
    → Slot id found free m
    → Slot id
        (after_remove (removes_one e) found)
        (free + gained (removes_one e) found)
        (apply e now m)
unfolding apply after_remove
apply-Slot (registry (mark_no_new_streams i)) id now m found free named slot =
    unfold refuse_streams in ground (arith, change_session-sessions i _ m.registry)
apply-Slot (registry (close_streams i g)) id now m found free named slot =
    unfold shut_streams in ground (arith, change_session-sessions i _ m.registry)
apply-Slot (registry (RegistryCommand.remove i)) id now m found free named slot =
    unfold remove in ground (arith, lookup-remove i id m.registry.sessions)
apply-Slot (timer c) id now m found free named slot = ground arith
apply-Slot (metric c) id now m found free named slot = ground arith

after_remove-add :
    (a b : ℕ) (found : Option SessionHandle)
    → (after_remove b (after_remove a found) ≡ after_remove (a + b) found)
      × (gained a found + gained b (after_remove a found) ≡ gained (a + b) found)
unfolding after_remove
after_remove-add zero b found = ground arith
after_remove-add (suc a) zero none = ground arith
after_remove-add (suc a) zero (some h) = ground arith
after_remove-add (suc a) (suc b) none = ground arith
after_remove-add (suc a) (suc b) (some h) = ground arith

apply_all-Slot :
    (es : List SessionEffect) (id : SessionId) (now : Instant) (m : SessionManager)
    (found : Option SessionHandle) (free : ℕ)
    → AllName id es
    → Slot id found free m
    → Slot id
        (after_remove (removals es) found)
        (free + gained (removals es) found)
        (apply_all es now m)
unfolding apply_all
apply_all-Slot [] id now m found free named slot = unfold after_remove in ground arith
apply_all-Slot (e ∷ es) id now m found free named slot =
    let one = apply-Slot e id now m found free named.0 slot in
    let rest = apply_all-Slot es id now (apply e now m) _ _ named.1 one in
    let (entries, slots) = after_remove-add (removes_one e) (removals es) found in
    record { entry = rest.entry ∙ entries; free_slots = omega (arith, rest.free_slots, slots) }

transition-Slot :
    (id : SessionId) (e : SessionEvent) (now : Instant) (h : SessionHandle) (s : SessionRecord)
    (m : SessionManager)
    → get id m.registry ≡ some h
    → let effects = (transition s.state id e m.config.idle_timeout).1 in
      Slot id
        (after_remove (removals effects) (some h))
        (m.registry.available + gained (removals effects) (some h))
        (apply_event id e now h s m)
unfolding get apply_event
transition-Slot id e now h s m found =
    apply_all-Slot effects id now entered (some h) m.registry.available
      (transition-AllName s.state id e m.config.idle_timeout)
      (record { entry = rw kept.0 found; free_slots = kept.1 })
  where
    effects : List SessionEffect
    effects = (transition s.state id e m.config.idle_timeout).1

    change : SessionRecord → SessionRecord
    change = enter (transition s.state id e m.config.idle_timeout).0 now

    entered : SessionManager
    entered = record m { registry = with_record h change m.registry }

    kept :
        ((with_record h change m.registry).sessions ≡ m.registry.sessions)
        × ((with_record h change m.registry).available ≡ m.registry.available)
    kept = with_record-sessions h change m.registry

-- Whether an event retires a session: its transition closes it, and it was not closed before.
abbrev pub retires : SessionState → SessionId → SessionEvent → Duration → Bool
retires s id e idle = is_closed (transition s id e idle).0 && not (is_closed s)

removals-retires :
    (s : SessionState) (id : SessionId) (e : SessionEvent) (idle : Duration)
    → removals (transition s id e idle).1 ≡ (if retires s id e idle then 1 else 0)
removals-retires s id e idle = ground (arith, transition-removals s id e idle)

-- What a session keeps after one of the events that may retire it.
retired_slot :
    (retired : Bool) (h : SessionHandle)
    → (after_remove (if retired then 1 else 0) (some h) ≡ (if retired then none else some h))
      × (gained (if retired then 1 else 0) (some h) ≡ (if retired then 1 else 0))
unfolding after_remove
retired_slot true h = (refl, refl)
retired_slot false h = (refl, refl)

-- An event on a stored session succeeds, and it takes the session out of the registry and frees
-- its slot exactly when its transition closes the session; else the session keeps both.
pub handle_event_slot :
    (id : SessionId) (e : SessionEvent) (now : Instant) (h : SessionHandle) (s : SessionRecord)
    (m : SessionManager)
    → get id m.registry ≡ some h
    → snapshot h m.registry ≡ some s
    → let m' = (handle_event id e now m).1 in
      let retired = retires s.state id e m.config.idle_timeout in
      ((handle_event id e now m).0 ≡ ok tt)
      × (get id m'.registry ≡ (if retired then none else some h))
      × (m'.registry.available ≡ m.registry.available + (if retired then 1 else 0))
unfolding handle_event get
handle_event_slot id e now h s m found held =
    let slot = transition-Slot id e now h s m found in
    let count = removals-retires s.state id e m.config.idle_timeout in
    let (entry, free) = retired_slot (retires s.state id e m.config.idle_timeout) h in
    rw (found, held, handle_event)
      (refl, (rw count at slot.entry) ∙ entry, omega (arith, rw count at slot.free_slots, free))
