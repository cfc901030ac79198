-- ===== src/Session/Registry/Defs.antt =====
-- src/session/registry.rs. A `SessionHandle` is an `Arc<Mutex<SessionRecord>>`: here an address of
-- `records`, the heap of session records, which outlives the entry of the map. The semaphore is
-- the number of its free permits; a `ReservationGuard` and a stored session hold one permit each,
-- and dropping either gives it back. Each operation holds the lock for its whole body.
use newghost.Prelude.{
  ℕ, ◌+◌, ◌-◌, ◌%◌, ◌^◌, Bool, true, false, Option, none, some, List, [], ◌∷◌, ◌++◌, length,
  get_elem?, set, ◌==◌, leb, if◌then◌else◌,
}
use newghost.Prelude.Outcome.{Outcome, ok, err}
use newghost.Time.{Instant, Duration, saturating_duration_since}
use newghost.Map
use newghost.Map.{Map}
use newghost.Session.Effects.{SessionId, RegistryCommand, mark_no_new_streams, close_streams}
use newghost.Session.State.{SessionState, closing, closed, drain_shutdown}

pub record SessionRecord : Type 0 where
  pub state : SessionState
  pub accepting_new_streams : Bool
  pub last_activity : Instant

-- `SessionRecord::new`
unfoldable pub new_record : SessionState → Instant → SessionRecord
new_record state last_activity = record {
  state = state;
  accepting_new_streams = true;
  last_activity = last_activity;
}

abbrev pub SessionHandle : Type 0
SessionHandle = ℕ

-- The guard stands for one permit that its holder owns.
pub data ReservationGuard : Type 0 where
  permit : ReservationGuard

pub data SessionLimitReached : Type 0 where
  at_capacity : SessionLimitReached

pub record SessionRegistry : Type 0 where
  pub sessions : Map SessionHandle
  pub available : ℕ
  pub next_session_id : ℕ
  pub records : List SessionRecord

unfoldable pub new : ℕ → SessionRegistry
new max_sessions = record {
  sessions = [];
  available = max_sessions;
  next_session_id = 1;
  records = [];
}

-- `handle.snapshot()`
unfoldable pub snapshot : SessionHandle → SessionRegistry → Option SessionRecord
snapshot handle r = get_elem? r.records handle

-- `handle.with_record(|record| …)`
unfoldable pub with_record :
    SessionHandle → (SessionRecord → SessionRecord) → SessionRegistry → SessionRegistry
unfolding snapshot
with_record handle change r = elim (snapshot handle r) [
  | none ↦ r
  | some old ↦ record r { records = set r.records handle (change old) }
]

unfoldable pub try_reserve :
    SessionRegistry → Outcome SessionLimitReached (ReservationGuard × SessionRegistry)
try_reserve r =
    if r.available == 0
    then err at_capacity
    else ok (permit, record r { available = r.available - 1 })

-- `Drop` of a guard that was not used.
unfoldable pub drop_guard : ReservationGuard → SessionRegistry → SessionRegistry
drop_guard guard r = record r { available = r.available + 1 }

-- The permits that go back when a stored session is dropped.
abbrev pub freed : Option SessionHandle → ℕ
freed none = 0
freed (some handle) = 1

-- `fetch_add` wraps at 2⁶⁴; `HashMap::insert` drops the session that had the same identifier.
unfoldable pub insert :
    ReservationGuard
    → SessionRecord
    → SessionRegistry
    → (SessionId × SessionHandle) × SessionRegistry
unfolding Map.lookup Map.insert
insert guard new_session r =
    let id = r.next_session_id in
    let handle = length r.records in
    let next = record r {
      sessions = Map.insert id handle r.sessions;
      available = r.available + freed (Map.lookup id r.sessions);
      next_session_id = (id + 1) % 2 ^ 64;
      records = r.records ++ new_session ∷ [];
    } in
    ((id, handle), next)

unfoldable pub get : SessionId → SessionRegistry → Option SessionHandle
unfolding Map.lookup
get id r = Map.lookup id r.sessions

unfoldable pub remove : SessionId → SessionRegistry → Option SessionHandle × SessionRegistry
unfolding Map.lookup Map.remove
remove id r =
    let found = Map.lookup id r.sessions in
    let next = record r {
      sessions = Map.remove id r.sessions;
      available = r.available + freed found;
    } in
    (found, next)

abbrev pub handles : Map SessionHandle → List SessionHandle
handles [] = []
handles ((id, handle) ∷ m) = handle ∷ handles m

unfoldable pub drain_all : SessionRegistry → List SessionHandle × SessionRegistry
drain_all r =
    (handles r.sessions, record r { sessions = []; available = r.available + length r.sessions })

-- Whether `reap_idle` keeps a session.
unfoldable pub keeps : Duration → Instant → SessionRegistry → SessionId → SessionHandle → Bool
unfolding snapshot
keeps max_idle now r id handle = elim (snapshot handle r) [
  | none ↦ true
  | some stored ↦ leb (saturating_duration_since now stored.last_activity) max_idle
]

unfoldable pub reap_idle : Duration → Instant → SessionRegistry → List SessionId × SessionRegistry
unfolding keeps Map.retain Map.dropped
reap_idle max_idle now r =
    let removed = Map.dropped (keeps max_idle now r) r.sessions in
    let next = record r {
      sessions = Map.retain (keeps max_idle now r) r.sessions;
      available = r.available + length removed;
    } in
    (removed, next)

unfoldable pub session_count : SessionRegistry → ℕ
session_count r = length r.sessions

unfoldable pub available_slots : SessionRegistry → ℕ
available_slots r = r.available

-- `if let Some(handle) = self.get(session_id) { handle.with_record(…) }`
unfoldable pub change_session :
    SessionId → (SessionRecord → SessionRecord) → SessionRegistry → SessionRegistry
unfolding get with_record
change_session id change r = elim (get id r) [
  | none ↦ r
  | some handle ↦ with_record handle change r
]

unfoldable pub stop_streams : SessionRecord → SessionRecord
stop_streams s = record s { accepting_new_streams = false }

-- `mark_no_new_streams`
unfoldable pub refuse_streams : SessionId → SessionRegistry → SessionRegistry
unfolding change_session stop_streams
refuse_streams id r = change_session id stop_streams r

-- The write of `close_streams`; `now` is its reading of the clock.
unfoldable pub end_streams : Bool → Instant → SessionRecord → SessionRecord
end_streams graceful now s = record s {
  accepting_new_streams = false;
  state = if graceful then closing drain_shutdown now else closed;
}

-- `close_streams`
unfoldable pub shut_streams : SessionId → Bool → Instant → SessionRegistry → SessionRegistry
unfolding change_session end_streams
shut_streams id graceful now r = change_session id (end_streams graceful now) r

-- `RegistryEffectTarget::execute`
unfoldable pub execute : RegistryCommand → Instant → SessionRegistry → SessionRegistry
unfolding refuse_streams shut_streams remove
execute (mark_no_new_streams id) now r = refuse_streams id r
execute (close_streams id graceful) now r = shut_streams id graceful now r
execute (RegistryCommand.remove id) now r = (remove id r).1
