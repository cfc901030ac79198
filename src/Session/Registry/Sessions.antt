-- ===== src/Session/Registry/Sessions.antt =====
-- What the operations of src/session/registry.rs do to the session that they name, and that they
-- leave the others alone.
use newghost.Prelude.{
  ℕ, ◌+◌, ◌<◌, ◌≡◌, ◌≢◌, refl, arith, none, some, [], ◌∷◌, ◌==◌, leb, length, get_elem?-set_self,
  get_elem?-set_ne, get_elem?-append_end, get_elem?-append_left, get_elem?-lt, if◌then◌else◌,
  Option-cases, Bool-cases, inl, inr, ◌∙◌,
}
use newghost.Time.{Instant, Duration, saturating_duration_since}
use newghost.Map
use newghost.Map.{
  Map, Distinct, lookup-remove, lookup-insert, lookup-retain, lookup-retain-none, length-retain,
}
use newghost.Session.Effects.{SessionId}
use newghost.Session.Registry.Defs.{
  SessionRecord, SessionHandle, permit, SessionRegistry, snapshot, with_record, insert, get, remove,
  keeps, reap_idle, session_count, available_slots, change_session, freed,
}
use newghost.Session.Registry.Invariant.{Inv, Below}

lookup-lt :
    (n id : ℕ) (m : Map SessionHandle) (h : SessionHandle)
    → Below n m
    → Map.lookup id m ≡ some h
    → h < n
unfolding Map.lookup
lookup-lt n id [] h b e = cc
lookup-lt n id ((i, x) ∷ m) h b e = ground (arith, lookup-lt x id m h b.1)

-- Two sessions have two handles.
handles_ne :
    (n id j : ℕ) (m : Map SessionHandle) (h k : SessionHandle)
    → Below n m
    → Map.lookup id m ≡ some h
    → Map.lookup j m ≡ some k
    → id ≢ j
    → h ≢ k
unfolding Map.lookup
handles_ne n id j [] h k b e f ne = cc
handles_ne n id j ((i, x) ∷ m) h k b e f ne =
    ground (arith, handles_ne x id j m h k b.1, lookup-lt x id m h b.1, lookup-lt x j m k b.1)

pub snapshot-with_record_self :
    (r : SessionRegistry) (h : SessionHandle) (change : SessionRecord → SessionRecord)
    (s : SessionRecord)
    → snapshot h r ≡ some s
    → snapshot h (with_record h change r) ≡ some (change s)
unfolding snapshot with_record
snapshot-with_record_self r h change s e =
    rw (e, with_record) (get_elem?-set_self r.records h (change s) (get_elem?-lt r.records h e))

pub snapshot-with_record_ne :
    (r : SessionRegistry) (h k : SessionHandle) (change : SessionRecord → SessionRecord)
    → h ≢ k
    → snapshot k (with_record h change r) ≡ snapshot k r
unfolding snapshot with_record
snapshot-with_record_ne r h k change ne = elim (Option-cases (snapshot h r)) [
  | inl missing ↦ rw (missing, with_record) refl
  | inr (old, found) ↦ rw (found, with_record) (get_elem?-set_ne r.records (change old) ne)
]

-- In a registry that keeps its invariant, a change of one session writes the record of that
-- session: of two sessions of the map, the record of the second is the changed one if it is the
-- same session, and else what it was.
pub change_session_only :
    {max guards : ℕ} (r : SessionRegistry) (id j : SessionId) (h k : SessionHandle)
    (change : SessionRecord → SessionRecord) (s : SessionRecord)
    → Inv max guards r
    → get id r ≡ some h
    → snapshot h r ≡ some s
    → get j r ≡ some k
    → snapshot k (change_session id change r) ≡ (if id == j then some (change s) else snapshot k r)
unfolding change_session get
change_session_only r id j h k change s v e es f = elim (Bool-cases (id == j)) [
  | inl same ↦
      let one : h ≡ k = ground (arith, same) in
      rw (same, ← one, e, change_session) (snapshot-with_record_self r h change s es)
  | inr other ↦
      rw (other, e, change_session)
        (snapshot-with_record_ne r h k change
          (handles_ne (length r.records) id j r.sessions h k v.owned e f (ground arith)))
]

-- `insert` makes the session known under the identifier that it returns, with the record that it
-- was given; every other identifier keeps its handle, and every record in use keeps its value.
pub insert-get :
    (s : SessionRecord) (r : SessionRegistry) (j : SessionId) (k : SessionHandle)
    → k < length r.records
    → let id = (insert permit s r).0.0 in
      let h = (insert permit s r).0.1 in
      let r' = (insert permit s r).1 in
      (get j r' ≡ (if id == j then some h else get j r))
      × (snapshot h r' ≡ some s)
      × (snapshot k r' ≡ snapshot k r)
unfolding insert get snapshot
insert-get s r j k lt = (
  lookup-insert r.next_session_id j (length r.records) r.sessions,
  get_elem?-append_end r.records s,
  get_elem?-append_left r.records (s ∷ []) k lt,
)

-- `remove` returns the handle that the identifier had, forgets that identifier alone, and gives
-- its slot back exactly when there was a session.
pub remove-get :
    (r : SessionRegistry) (id j : SessionId)
    → ((remove id r).0 ≡ get id r)
      × (get j (remove id r).1 ≡ (if id == j then none else get j r))
      × (available_slots (remove id r).1 ≡ available_slots r + freed (get id r))
unfolding remove get available_slots
remove-get r id j = (refl, lookup-remove id j r.sessions, refl)

-- In a registry that keeps its invariant, `reap_idle` forgets a session exactly when it has been
-- idle for longer than the bound, keeps the handle of the others, and gives back as many slots as
-- it lists sessions.
pub reap_idle_exact :
    {max guards : ℕ} (r : SessionRegistry) (max_idle : Duration) (now : Instant) (id : SessionId)
    (h : SessionHandle) (s : SessionRecord)
    → Inv max guards r
    → get id r ≡ some h
    → snapshot h r ≡ some s
    → let r' = (reap_idle max_idle now r).1 in
      let removed = (reap_idle max_idle now r).0 in
      (get id r'
        ≡ (if leb (saturating_duration_since now s.last_activity) max_idle then some h else none))
      × (session_count r' + length removed ≡ session_count r)
      × (available_slots r' ≡ available_slots r + length removed)
unfolding reap_idle get session_count available_slots
reap_idle_exact r max_idle now id h s v e es = (
  lookup-retain (keeps max_idle now r) id r.sessions h v.distinct e
      ∙ (unfold keeps in rw (es, keeps)),
  length-retain (keeps max_idle now r) r.sessions,
  refl,
)

-- A write to a record leaves the map and the permits alone.
pub with_record-sessions :
    (h : SessionHandle) (change : SessionRecord → SessionRecord) (r : SessionRegistry)
    → ((with_record h change r).sessions ≡ r.sessions)
      × ((with_record h change r).available ≡ r.available)
unfolding with_record
with_record-sessions h change r = ground arith

pub change_session-sessions :
    (id : SessionId) (change : SessionRecord → SessionRecord) (r : SessionRegistry)
    → ((change_session id change r).sessions ≡ r.sessions)
      × ((change_session id change r).available ≡ r.available)
unfolding change_session with_record
change_session-sessions id change r = ground arith

pub get-with_record :
    (id : SessionId) (h : SessionHandle) (change : SessionRecord → SessionRecord)
    (r : SessionRegistry)
    → get id (with_record h change r) ≡ get id r
unfolding get
get-with_record id h change r = rw ((with_record-sessions h change r).0)

pub change_session_found :
    (id : SessionId) (h : SessionHandle) (change : SessionRecord → SessionRecord)
    (r : SessionRegistry)
    → get id r ≡ some h
    → change_session id change r ≡ with_record h change r
unfolding change_session
change_session_found id h change r found = rw (found, change_session) refl
