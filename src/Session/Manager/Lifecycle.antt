-- ===== src/Session/Manager/Lifecycle.antt =====
-- What happens to a session over the calls of src/session/mod.rs.
use newghost.Prelude.{
  ℕ, ◌≡◌, ◌≢◌, refl, arith, ◌∙◌, true, false, none, some, if◌then◌else◌, ◌⊎◌, inl, inr,
  Option-cases,
}
use newghost.Prelude.Outcome.{ok, err}
use newghost.Time.{Instant}
use newghost.Transport.{ResolvedStream}
use newghost.Session.Effects.{SessionId}
use newghost.Session.State.{
  active, CloseReason, closing, drain_shutdown, stream_opened, transport_lost, drain_requested,
  deadline_reached, saturating_inc, transition,
}
use newghost.Session.Registry.{
  SessionRecord, SessionHandle, SessionRegistry, get, snapshot, with_record, execute,
  change_session, refuse_streams, shut_streams, stop_streams, end_streams,
}
use newghost.Session.Registry.Sessions.{
  get-with_record, change_session_found, snapshot-with_record_self, with_record-sessions,
}
use newghost.Session.Selector.{TransportSelectError}
use newghost.Session.Manager.Defs.{
  SessionManager, session_not_accepting_new_streams, transport_resolution_failed, apply, apply_all,
  apply_event, handle_event, enter, resolve_stream, finish_resolve, touch,
}

-- The record of a session that was told to close at `now`.
abbrev pub closing_record : Instant → SessionRecord
closing_record now = record {
  state = closing drain_shutdown now;
  accepting_new_streams = false;
  last_activity = now;
}

-- A session that is stored under a handle, with its record.
record Stored (id : SessionId) (h : SessionHandle) (s : SessionRecord) (r : SessionRegistry)
    : Type 0 where
  found : get id r ≡ some h
  held : snapshot h r ≡ some s

with_record-Stored :
    (id : SessionId) (h : SessionHandle) (s : SessionRecord) (r : SessionRegistry)
    (change : SessionRecord → SessionRecord)
    → Stored id h s r
    → Stored id h (change s) (with_record h change r)
with_record-Stored id h s r change v = record {
  found = get-with_record id h change r ∙ v.found;
  held = snapshot-with_record_self r h change s v.held;
}

change_session-Stored :
    (id : SessionId) (h : SessionHandle) (s : SessionRecord) (r : SessionRegistry)
    (change : SessionRecord → SessionRecord)
    → Stored id h s r
    → Stored id h (change s) (change_session id change r)
change_session-Stored id h s r change v =
    rw (change_session_found id h change r v.found) (with_record-Stored id h s r change v)

-- For a stored, active session whose transport is lost, with any deadline: the stored record ends
-- with the reason `drain_shutdown` and the clock of the call as its deadline, since the command
-- `CloseStreams` overwrites the reason and the deadline that the transition had set.
pub transport_lost_record :
    (id : SessionId) (deadline now since : Instant) (n : ℕ) (h : SessionHandle) (s : SessionRecord)
    (m : SessionManager)
    → get id m.registry ≡ some h
    → snapshot h m.registry ≡ some s
    → s.state ≡ active since n
    → snapshot h (handle_event id (transport_lost deadline) now m).1.registry
      ≡ some (closing_record now)
unfolding handle_event apply_event apply_all apply execute transition end_streams enter shut_streams
transport_lost_record id deadline now since n h s m found held is_active =
    let entered =
      with_record-Stored id h s m.registry (enter (closing CloseReason.transport_lost deadline) now)
        (record { found = found; held = held }) in
    let shut = change_session-Stored id h _ _ (end_streams true now) entered in
    rw (found, held, handle_event, is_active) shut.held

-- A drain request on a stored, active session leaves this record, whatever its deadline: no new
-- streams, closing for the reason `drain_shutdown`, with the clock of the call as the deadline.
pub drain_requested_record :
    (id : SessionId) (deadline now since : Instant) (n : ℕ) (h : SessionHandle) (s : SessionRecord)
    (m : SessionManager)
    → get id m.registry ≡ some h
    → snapshot h m.registry ≡ some s
    → s.state ≡ active since n
    → snapshot h (handle_event id (drain_requested deadline) now m).1.registry
      ≡ some (closing_record now)
unfolding handle_event apply_event apply_all apply execute transition end_streams enter stop_streams
    shut_streams refuse_streams
drain_requested_record id deadline now since n h s m found held is_active =
    let entered =
      with_record-Stored id h s m.registry (enter (closing drain_shutdown deadline) now)
        (record { found = found; held = held }) in
    let marked = change_session-Stored id h _ _ stop_streams entered in
    let shut = change_session-Stored id h _ _ (end_streams true now) marked in
    rw (found, held, handle_event, is_active) shut.held

-- The event `DeadlineReached` on a stored, active session succeeds and does nothing but note the
-- time: the session stays in the registry, active with the same streams, and its slot stays taken.
pub deadline_keeps_active :
    (id : SessionId) (now since : Instant) (n : ℕ) (h : SessionHandle) (s : SessionRecord)
    (m : SessionManager)
    → get id m.registry ≡ some h
    → snapshot h m.registry ≡ some s
    → s.state ≡ active since n
    → let (result, m') = handle_event id deadline_reached now m in
      (result ≡ ok tt)
      × (get id m'.registry ≡ some h)
      × (m'.registry.available ≡ m.registry.available)
      × (snapshot h m'.registry ≡ some (record s { last_activity = now }))
unfolding handle_event apply_event apply_all transition enter
deadline_keeps_active id now since n h s m found held is_active =
    let entered =
      with_record-Stored id h s m.registry (enter (active since n) now)
        (record { found = found; held = held }) in
    rw (found, held, handle_event, is_active)
      (
        refl,
        entered.found,
        (with_record-sessions h (enter (active since n) now) m.registry).1,
        entered.held,
      )

-- When the selector fails for a stored session, `resolve_stream` reports the selector's error and
-- leaves the manager as the other tasks leave it; a session that takes no new streams gets an
-- error of its own, and nothing changes.
pub resolve_stream_failed :
    (id : SessionId) (e : TransportSelectError) (others : SessionManager → SessionManager)
    (now : Instant) (h : SessionHandle) (s : SessionRecord) (m : SessionManager)
    → get id m.registry ≡ some h
    → snapshot h m.registry ≡ some s
    → resolve_stream id (inr e) others now m ≡ (
        if s.accepting_new_streams
        then (err (transport_resolution_failed e), others m)
        else (err (session_not_accepting_new_streams id), m))
unfolding resolve_stream
resolve_stream_failed id e others now h s m found held = ground arith

-- A stream is handed out only for a session that accepted new streams when the call began and that
-- is still stored after the other tasks ran, and it is the stream that the selector returned.
pub resolve_stream_ok :
    (id : SessionId) (selected : ResolvedStream ⊎ TransportSelectError)
    (others : SessionManager → SessionManager) (now : Instant) (stream : ResolvedStream)
    (m : SessionManager)
    → (resolve_stream id selected others now m).0 ≡ ok stream
    → (h : SessionHandle) × (s : SessionRecord) × (get id m.registry ≡ some h)
      × (snapshot h m.registry ≡ some s)
      × (s.accepting_new_streams ≡ true)
      × (selected ≡ inl stream)
      × (get id (others m).registry ≢ none)
unfolding resolve_stream handle_event
resolve_stream_ok id selected others now stream m h = elim (Option-cases (get id m.registry)) [
  | inl missing ↦ ground (arith, missing)
  | inr (handle, found) ↦ elim (Option-cases (snapshot handle m.registry)) [
    | inl missing ↦ ground (arith, missing)
    | inr (s, held) ↦
        let kept = get-with_record id handle (touch now) (others m).registry in
        (
          handle,
          s,
          found,
          held,
          ground (arith, found, held),
          ground (arith, found, held),
          ground (arith, found, held, kept),
        )
  ]
]

-- A stream that opens on an active session raises its count by one, up to the greatest `u32`, and
-- keeps its entry and its slot.
stream_opened_record :
    (id : SessionId) (now since : Instant) (n : ℕ) (h : SessionHandle) (s : SessionRecord)
    (m : SessionManager)
    → get id m.registry ≡ some h
    → snapshot h m.registry ≡ some s
    → s.state ≡ active since n
    → let (result, m') = handle_event id stream_opened now m in
      (result ≡ ok tt)
      × (get id m'.registry ≡ some h)
      × (m'.registry.available ≡ m.registry.available)
      × (snapshot h m'.registry
          ≡ some (record s { state = active since (saturating_inc n); last_activity = now }))
unfolding handle_event apply_event apply_all apply transition enter
stream_opened_record id now since n h s m found held is_active =
    let entered =
      with_record-Stored id h s m.registry (enter (active since (saturating_inc n)) now)
        (record { found = found; held = held }) in
    rw (found, held, handle_event, is_active)
      (
        refl,
        entered.found,
        (with_record-sessions h (enter (active since (saturating_inc n)) now) m.registry).1,
        entered.held,
      )

-- With the selector's stream, on a stored and active session that takes new streams, and with no
-- other task at work, `resolve_stream` hands the stream out, counts it up to the greatest `u32`,
-- notes the time, and keeps the session's entry and slot.
pub resolve_stream_record :
    (id : SessionId) (stream : ResolvedStream) (now since : Instant) (n : ℕ) (h : SessionHandle)
    (s : SessionRecord) (m : SessionManager)
    → get id m.registry ≡ some h
    → snapshot h m.registry ≡ some s
    → s.accepting_new_streams ≡ true
    → s.state ≡ active since n
    → let (result, m') = resolve_stream id (inl stream) (λ m''. m'') now m in
      (result ≡ ok stream)
      × (get id m'.registry ≡ some h)
      × (m'.registry.available ≡ m.registry.available)
      × (snapshot h m'.registry
          ≡ some (record s { state = active since (saturating_inc n); last_activity = now }))
unfolding resolve_stream finish_resolve touch
resolve_stream_record id stream now since n h s m found held accepting is_active =
    let touched =
      with_record-Stored id h s m.registry (touch now) (record { found = found; held = held }) in
    let opened =
      stream_opened_record id now since n h (touch now s)
        (record m { registry = with_record h (touch now) m.registry }) touched.found touched.held
        is_active in
    let kept = (with_record-sessions h (touch now) m.registry).1 in
    rw (found, held, resolve_stream, accepting, opened.0, finish_resolve)
      (refl, opened.1, opened.2 ∙ kept, rw accepting at opened.3)
