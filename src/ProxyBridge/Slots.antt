-- ===== src/ProxyBridge/Slots.antt =====
-- What one proxied request does to the capacity of the session registry.
use newghost.Prelude.{
  ◌+◌, ◌-◌, ◌<◌, ◌≡◌, refl, arith, ap, false, Option, none, some, [], ◌∷◌, inl, inr, length,
  get_elem?-append_end,
}
use newghost.Prelude.Outcome.{Outcome, ok, err}
use newghost.Time.{Instant}
use newghost.Transport.{ResolvedStream}
use newghost.Map.{lookup-insert}
use newghost.Session.Effects.{SessionId}
use newghost.Session.State.{active, stream_closed, transition}
use newghost.Session.Registry.{
  permit, new_record, SessionHandle, get, snapshot, insert, try_reserve,
}
use newghost.Session.Selector.{TransportSelectError}
use newghost.Session.Manager.{SessionManager, register_session, resolve_stream, handle_event}
use newghost.Session.Manager.Slots.{handle_event_slot}
use newghost.Session.Manager.Lifecycle.{
  deadline_keeps_active, resolve_stream_failed, resolve_stream_record,
}
use newghost.Socks5.Reply.{
  ProxyError, selection, transport_failed, general_failure, succeeded, map_reply,
}
use newghost.ProxyBridge.Defs.{
  Course, Processed, process_intent, resolve_and_pump, after_resolve, give_up, pump_bidirectional,
  pump, Forwarded, map_session_error,
}

-- What `register_session` does when there is a slot.
registered : Instant → SessionManager → (SessionId × SessionHandle) × SessionManager
unfolding insert new_record
registered now m =
    let (session, stored) =
      insert permit (new_record (active now 0) now)
        (record m.registry { available = m.registry.available - 1 }) in
    (session, record m { registry = stored })

register_session-ok :
    (now : Instant) (m : SessionManager)
    → 0 < m.registry.available
    → register_session now m ≡ ok (registered now m)
unfolding register_session try_reserve registered
register_session-ok now m h = ground arith

-- The new session is active with no stream, and accepts streams.
registered-stored :
    (now : Instant) (m : SessionManager)
    → let ((id, h), m') = registered now m in
      (get id m'.registry ≡ some h)
      × (snapshot h m'.registry ≡ some (new_record (active now 0) now))
unfolding registered get snapshot
registered-stored now m = (
  ground (
    arith,
    lookup-insert m.registry.next_session_id m.registry.next_session_id (length m.registry.records)
        m.registry.sessions,
  ),
  get_elem?-append_end m.registry.records (new_record (active now 0) now),
)

registered-available :
    (now : Instant) (m : SessionManager)
    → 0 < m.registry.available
    → get m.registry.next_session_id m.registry ≡ none
    → (registered now m).1.registry.available + 1 ≡ m.registry.available
unfolding registered get
registered-available now m free fresh = rw fresh (omega arith)

-- A request for which the selector finds no transport, while no other task runs and the total
-- timeout does not strike: the client gets the reply `general failure`, and afterwards the session
-- of the request is still in the registry, active with no stream, and one slot fewer is free than
-- before (a slot was free, and its identifier was not in use).
pub failed_request_keeps_session :
    (course : Course) (e : TransportSelectError) (m : SessionManager)
    → 0 < m.registry.available
    → get m.registry.next_session_id m.registry ≡ none
    → course.selected ≡ inr e
    → course.times_out ≡ false
    → course.while_resolving ≡ (λ m'. m')
    → (done : Processed) × (id : SessionId) × (h : SessionHandle) × (process_intent course m
        ≡ some done)
      × (done.result ≡ err (transport_failed (selection e)))
      × (done.replies ≡ general_failure ∷ [])
      × (get id done.manager.registry ≡ some h)
      × (done.manager.registry.available + 1 ≡ m.registry.available)
      × (snapshot h done.manager.registry
          ≡ some (record (new_record (active course.started_at 0) course.started_at) {
            last_activity = course.closed_at;
          }))
unfolding process_intent resolve_and_pump after_resolve give_up map_session_error new_record
    map_reply
failed_request_keeps_session course e m free fresh sel quick alone =
    let new = registered course.started_at m in
    let id = new.0.0 in
    let h = new.0.1 in
    let stored = registered-stored course.started_at m in
    let done = give_up id (transport_failed (selection e)) course.closed_at new.1 in
    let kept =
      deadline_keeps_active id course.closed_at course.started_at 0 h _ new.1 stored.0 stored.1
        refl in
    (
      done,
      id,
      h,
      rw
          (
            register_session-ok course.started_at m free,
            process_intent,
            quick,
            resolve_and_pump,
            sel,
            alone,
            resolve_stream_failed id e (λ m'. m') course.resolved_at h _ new.1 stored.0 stored.1,
          )
          refl,
      refl,
      refl,
      kept.1,
      omega (arith, kept.2, registered-available course.started_at m free fresh),
      kept.3,
    )

pump_bidirectional-ends :
    (id : SessionId) (course : Course) (outcome : Outcome ProxyError (Unit {0}))
    (forwarded : Forwarded) (m : SessionManager)
    → pump course.events (record { to_transport = []; to_client = [] }) ≡ some (outcome, forwarded)
    → course.while_pumping ≡ (λ m'. m')
    → pump_bidirectional id course m
      ≡ some (record {
        result = outcome;
        replies = succeeded ∷ [];
        manager = (handle_event id stream_closed course.closed_at m).1;
      })
unfolding pump_bidirectional
pump_bidirectional-ends id course outcome forwarded m ends alone =
    rw (ends, pump_bidirectional)
      (ap {B = Option Processed}
        (λ (others : SessionManager → SessionManager). some (record {
          result = outcome;
          replies = succeeded ∷ [];
          manager = (handle_event id stream_closed course.closed_at (others m)).1;
        }))
        alone)

-- A request that gets a stream within the total timeout and while no other task runs, under an
-- identifier that is not in use and with a slot free: once its pump ends, in whatever way, the
-- client has been told `succeeded`, the session is out of the registry, and as many slots are free
-- as before the request.
pub completed_request_frees_slot :
    (course : Course) (stream : ResolvedStream) (outcome : Outcome ProxyError (Unit {0}))
    (forwarded : Forwarded) (m : SessionManager)
    → 0 < m.registry.available
    → get m.registry.next_session_id m.registry ≡ none
    → course.selected ≡ inl stream
    → course.times_out ≡ false
    → course.while_resolving ≡ (λ m'. m')
    → course.while_pumping ≡ (λ m'. m')
    → pump course.events (record { to_transport = []; to_client = [] }) ≡ some (outcome, forwarded)
    → (done : Processed) × (process_intent course m ≡ some done)
      × (done.result ≡ outcome)
      × (done.replies ≡ succeeded ∷ [])
      × (get m.registry.next_session_id done.manager.registry ≡ none)
      × (done.manager.registry.available ≡ m.registry.available)
unfolding process_intent resolve_and_pump after_resolve new_record
completed_request_frees_slot course stream outcome forwarded m free fresh sel quick alone alone'
      ends =
    let new = registered course.started_at m in
    let id = new.0.0 in
    let h = new.0.1 in
    let stored = registered-stored course.started_at m in
    let resolved =
      resolve_stream_record id stream course.resolved_at course.started_at 0 h _ new.1 stored.0
        stored.1 refl refl in
    let m' = (resolve_stream id (inl stream) (λ m''. m'') course.resolved_at new.1).1 in
    let closing =
      handle_event_slot id stream_closed course.closed_at h _ m' resolved.1 resolved.3 in
    let done : Processed = record {
      result = outcome;
      replies = succeeded ∷ [];
      manager = (handle_event id stream_closed course.closed_at m').1;
    } in
    (
      done,
      rw
          (
            register_session-ok course.started_at m free,
            process_intent,
            quick,
            resolve_and_pump,
            sel,
            alone,
            resolved.0,
            after_resolve,
          )
          (pump_bidirectional-ends id course outcome forwarded m' ends alone'),
      refl,
      refl,
      unfold transition registered in closing.1,
      unfold transition in
          omega (arith, closing.2, resolved.2, registered-available course.started_at m free fresh),
    )
