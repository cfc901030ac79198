-- ===== src/Session/Registry/Invariant.antt =====
-- The invariant of the session registry: one permit for each guard and each session, one entry for
-- each identifier, and one heap record for each handle.
use newghost.Prelude.{
  ℕ, ◌+◌, ◌≤◌, ◌<◌, ◌≡◌, arith, Bool, [], ◌∷◌, length, length-append, length-set, get_elem?,
  Option-cases, inl, inr,
}
use newghost.Prelude.Outcome.{ok}
use newghost.Time.{Instant, Duration}
use newghost.Map
use newghost.Map.{
  Map, Distinct, remove-Distinct, insert-Distinct, retain-Distinct, remove-none, length-remove,
  length-retain, lookup-remove,
}
use newghost.Session.Effects.{SessionId}
use newghost.Session.Registry.Defs.{
  SessionRecord, SessionHandle, permit, SessionRegistry, new, with_record, try_reserve, drop_guard,
  insert, get, remove, drain_all, keeps, reap_idle, change_session, freed,
}

-- Newest first, the handles fall along the map: they are distinct, and below `n`.
abbrev pub Below : ℕ → Map SessionHandle → Type 0
Below n [] = Unit {0}
Below n ((id, handle) ∷ m) = (handle < n) × Below handle m

Below-mono : (n k : ℕ) (m : Map SessionHandle) → n ≤ k → Below n m → Below k m
Below-mono n k [] le b = tt
Below-mono n k ((id, handle) ∷ m) le b = (omega arith, b.1)

remove-Below : (id n : ℕ) (m : Map SessionHandle) → Below n m → Below n (Map.remove id m)
unfolding Map.remove
remove-Below id n [] b = tt
remove-Below id n ((i, handle) ∷ m) b =
    ground (arith, remove-Below id handle m b.1, Below-mono handle n (Map.remove id m))

retain-Below :
    (keep : ℕ → SessionHandle → Bool) (n : ℕ) (m : Map SessionHandle)
    → Below n m
    → Below n (Map.retain keep m)
unfolding Map.retain
retain-Below keep n [] b = tt
retain-Below keep n ((i, handle) ∷ m) b =
    ground (arith, retain-Below keep handle m b.1, Below-mono handle n (Map.retain keep m))

-- The registry of `max` permits while its callers hold `guards` reservations.
pub record Inv (max guards : ℕ) (r : SessionRegistry) : Type 0 where
  pub distinct : Distinct r.sessions
  pub owned : Below (length r.records) r.sessions
  pub permits : r.available + guards + length r.sessions ≡ max

pub new-Inv : (max : ℕ) → Inv max 0 (new max)
unfolding new
new-Inv max = record { distinct = tt; owned = tt; permits = omega arith }

removed_length :
    (id : ℕ) (m : Map SessionHandle)
    → Distinct m
    → length (Map.remove id m) + freed (Map.lookup id m) ≡ length m
removed_length id m d = elim (Option-cases (Map.lookup id m)) [
  | inl missing ↦ rw (missing, remove-none id m missing) (omega arith)
  | inr (handle, found) ↦ rw found (length-remove id m d found)
]

pub reserve-Inv :
    {max guards : ℕ} {r : SessionRegistry}
    → Inv max guards r
    → (r' : SessionRegistry) → try_reserve r ≡ ok (permit, r')
    → Inv max (guards + 1) r'
unfolding try_reserve
reserve-Inv v r' h = ground (arith, v.permits)

pub drop-Inv :
    {max guards : ℕ} {r : SessionRegistry}
    → Inv max (guards + 1) r
    → Inv max guards (drop_guard permit r)
unfolding drop_guard
drop-Inv v = record { distinct = v.distinct; owned = v.owned; permits = omega arith }

pub insert-Inv :
    {max guards : ℕ} {r : SessionRegistry} (s : SessionRecord)
    → Inv max (guards + 1) r
    → Inv max guards (insert permit s r).1
unfolding insert
insert-Inv {r} s v = record {
  distinct = insert-Distinct r.next_session_id (length r.records) r.sessions v.distinct;
  owned = (
    omega (arith, length-append r.records (s ∷ [])),
    remove-Below r.next_session_id (length r.records) r.sessions v.owned,
  );
  permits = omega (arith, removed_length r.next_session_id r.sessions v.distinct);
}

pub remove-Inv :
    {max guards : ℕ} {r : SessionRegistry} (id : SessionId)
    → Inv max guards r
    → Inv max guards (remove id r).1
unfolding remove
remove-Inv {r} id v = record {
  distinct = remove-Distinct id r.sessions v.distinct;
  owned = remove-Below id (length r.records) r.sessions v.owned;
  permits = omega (arith, removed_length id r.sessions v.distinct);
}

pub drain_all-Inv :
    {max guards : ℕ} {r : SessionRegistry} → Inv max guards r → Inv max guards (drain_all r).1
unfolding drain_all
drain_all-Inv v = record { distinct = tt; owned = tt; permits = omega arith }

pub reap_idle-Inv :
    {max guards : ℕ} {r : SessionRegistry} (max_idle : Duration) (now : Instant)
    → Inv max guards r
    → Inv max guards (reap_idle max_idle now r).1
unfolding reap_idle
reap_idle-Inv {r} max_idle now v = record {
  distinct = retain-Distinct (keeps max_idle now r) r.sessions v.distinct;
  owned = retain-Below (keeps max_idle now r) (length r.records) r.sessions v.owned;
  permits = omega (arith, length-retain (keeps max_idle now r) r.sessions);
}

pub with_record-Inv :
    {max guards : ℕ} {r : SessionRegistry} (handle : SessionHandle)
    (change : SessionRecord → SessionRecord)
    → Inv max guards r
    → Inv max guards (with_record handle change r)
unfolding with_record
with_record-Inv {r} handle change v = elim (Option-cases (get_elem? r.records handle)) [
  | inl missing ↦ rw (missing, with_record) v
  | inr (old, found) ↦
      rw (found, with_record)
        (record {
          distinct = v.distinct;
          owned = rw (length-set r.records handle (change old)) v.owned;
          permits = v.permits;
        })
]

pub change_session-Inv :
    {max guards : ℕ} {r : SessionRegistry} (id : SessionId) (change : SessionRecord → SessionRecord)
    → Inv max guards r
    → Inv max guards (change_session id change r)
unfolding change_session
change_session-Inv {r} id change v = elim (Option-cases (get id r)) [
  | inl missing ↦ rw (missing, change_session) v
  | inr (handle, found) ↦ rw (found, change_session) (with_record-Inv handle change v)
]
