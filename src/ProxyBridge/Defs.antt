-- ===== src/ProxyBridge/Defs.antt =====
-- src/proxy_bridge/mod.rs: `process_intent` and `pump_bidirectional`. What the sockets, the
-- selector and the other tasks do is an argument, `Course`. A write that fails is taken to have
-- sent nothing; the writes of replies and shutdowns may fail without effect, as in the source.
use newghost.Prelude.{ℕ, Bool, Option, none, some, List, [], ◌∷◌, ◌++◌, ◌⊎◌, if◌then◌else◌}
use newghost.Prelude.Outcome.{Outcome, ok, err, panic}
use newghost.Time.{Instant}
use newghost.Transport.{ResolvedStream}
use newghost.Session.Effects.{SessionId}
use newghost.Session.State.{stream_closed, deadline_reached}
use newghost.Session.Selector.{TransportSelectError}
use newghost.Session.Manager.{
  SessionManager, SessionManagerError, session_limit_reached, session_not_found,
  session_not_accepting_new_streams, transport_resolution_failed, register_session, resolve_stream,
  handle_event,
}
use newghost.Socks5.Reply.{
  ErrorKind, Failure, request_timeout_exceeded, selection, ProxyError, transport_failed,
  pump_failed, Socks5Reply, succeeded, general_failure, map_reply,
}

-- One branch of the pump's `select!`: a read of either side, with what the write to the other side
-- then does, or the drain token.
pub data PumpEvent : Type 0 where
  client_eof transport_eof drain_requested : PumpEvent
  client_read_failed transport_read_failed : ErrorKind → PumpEvent
  client_read transport_read : List ℕ → Option ErrorKind → PumpEvent

pub record Forwarded : Type 0 where
  pub to_transport : List ℕ
  pub to_client : List ℕ

abbrev pub PumpResult : Type 0
PumpResult = Outcome ProxyError (Unit {0})

-- `none` while the loop waits for its next event.
unfoldable pub pump : List PumpEvent → Forwarded → Option (PumpResult × Forwarded)
pump [] f = none
pump (client_eof ∷ events) f = some (ok tt, f)
pump (transport_eof ∷ events) f = some (ok tt, f)
pump (drain_requested ∷ events) f = some (ok tt, f)
pump (client_read_failed e ∷ events) f = some (err (pump_failed e), f)
pump (transport_read_failed e ∷ events) f = some (err (pump_failed e), f)
pump (client_read bytes (some e) ∷ events) f = some (err (pump_failed e), f)
pump (transport_read bytes (some e) ∷ events) f = some (err (pump_failed e), f)
pump (client_read bytes none ∷ events) f =
    pump events (record f { to_transport = f.to_transport ++ bytes })
pump (transport_read bytes none ∷ events) f =
    pump events (record f { to_client = f.to_client ++ bytes })

unfoldable pub map_session_error : SessionManagerError → ProxyError
map_session_error session_limit_reached = ProxyError.session_limit_reached
map_session_error (session_not_found id) = transport_failed Failure.session_not_found
map_session_error (session_not_accepting_new_streams id) =
    transport_failed Failure.session_not_accepting_new_streams
map_session_error (transport_resolution_failed e) = transport_failed (selection e)

-- What the world does in the course of one request.
pub record Course : Type 0 where
  pub started_at : Instant
  pub selected : ResolvedStream ⊎ TransportSelectError
  pub times_out : Bool
  pub while_resolving : SessionManager → SessionManager
  pub resolved_at : Instant
  pub events : List PumpEvent
  pub while_pumping : SessionManager → SessionManager
  pub closed_at : Instant

-- The result, the replies that the client was sent, and the manager.
pub record Processed : Type 0 where
  pub result : PumpResult
  pub replies : List Socks5Reply
  pub manager : SessionManager

abbrev pub reply_to : ProxyError → List Socks5Reply
reply_to e = elim (map_reply e) [ none ↦ [] | some reply ↦ reply ∷ [] ]

-- The branch of a stream that was not resolved: reply, `DeadlineReached`, failure.
unfoldable pub give_up : SessionId → ProxyError → Instant → SessionManager → Processed
give_up id e now m = record {
  result = err e;
  replies = reply_to e;
  manager = (handle_event id deadline_reached now m).1;
}

-- `pump_bidirectional` ends with the event `StreamClosed`, whatever its outcome.
unfoldable pub pump_bidirectional : SessionId → Course → SessionManager → Option Processed
pump_bidirectional id course m =
    elim (pump course.events (record { to_transport = []; to_client = [] })) [
      | none ↦ none
      | some (outcome, forwarded) ↦ some (record {
        result = outcome;
        replies = succeeded ∷ [];
        manager = (handle_event id stream_closed course.closed_at (course.while_pumping m)).1;
      })
    ]

-- The answer of `resolve_stream`, with the manager after it.
unfoldable pub after_resolve :
    SessionId
    → Course
    → Outcome SessionManagerError ResolvedStream × SessionManager
    → Option Processed
after_resolve id course (ok stream, m) = pump_bidirectional id course m
after_resolve id course (err e, m) = some (give_up id (map_session_error e) course.closed_at m)
after_resolve id course (panic, m) = none

-- Under the total timeout, which drops the resolution while the selector works.
unfoldable pub resolve_and_pump : SessionId → Course → SessionManager → Option Processed
resolve_and_pump id course m =
    if course.times_out
    then some (
        give_up id (transport_failed request_timeout_exceeded) course.closed_at
          (course.while_resolving m))
    else after_resolve id course
        (resolve_stream id course.selected course.while_resolving course.resolved_at m)

-- `none` while the pump runs (or where a lock is poisoned).
unfoldable pub process_intent : Course → SessionManager → Option Processed
process_intent course m = elim (register_session course.started_at m) [
  | ok ((id, handle), registered) ↦ resolve_and_pump id course registered
  | err e ↦
      some
        (record { result = err (map_session_error e); replies = general_failure ∷ []; manager = m })
  | panic ↦ none
]
