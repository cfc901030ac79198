-- ===== src/Session/Manager/Defs.antt =====
-- src/session/effect_handler.rs and src/session/mod.rs. The timer and metric targets are traits of
-- the caller: they are modelled by what they are sent, in order. `now` is the one reading of the
-- clock in a call. No other call runs between the steps of one call, except while `resolve_stream`
-- waits for the selector, where `others` is whatever the other tasks do.
use newghost.Prelude.{
  ℕ, false, none, some, List, [], ◌∷◌, ◌++◌, length, ◌⊎◌, inl, inr, not, if◌then◌else◌,
}
use newghost.Prelude.Outcome.{Outcome, ok, err, panic, ◌>>=◌}
use newghost.Time.{Instant, Duration}
use newghost.Transport.{ResolvedStream}
use newghost.Session.Effects.{
  SessionId, TimerCommand, MetricEvent, SessionEffect, registry, timer, metric,
}
use newghost.Session.State.{SessionState, active, closed, SessionEvent, stream_opened, transition}
use newghost.Session.Registry.{
  SessionRecord, new_record, SessionHandle, SessionRegistry, try_reserve, insert, get, snapshot,
  with_record, drain_all, execute,
}
use newghost.Session.Selector.{TransportSelectError}

pub record SessionManagerConfig : Type 0 where
  pub idle_timeout : Duration
  pub graceful_shutdown_timeout : Duration

pub data SessionManagerError : Type 0 where
  session_limit_reached : SessionManagerError
  session_not_found : SessionId → SessionManagerError
  session_not_accepting_new_streams : SessionId → SessionManagerError
  transport_resolution_failed : TransportSelectError → SessionManagerError

pub record SessionManager : Type 0 where
  pub config : SessionManagerConfig
  pub registry : SessionRegistry
  pub timers : List TimerCommand
  pub metrics : List MetricEvent

-- `EffectHandler::apply`: one effect goes to one target.
unfoldable pub apply : SessionEffect → Instant → SessionManager → SessionManager
unfolding execute
apply (registry command) now m = record m { registry = execute command now m.registry }
apply (timer command) now m = record m { timers = m.timers ++ command ∷ [] }
apply (metric event) now m = record m { metrics = m.metrics ++ event ∷ [] }

unfoldable pub apply_all : List SessionEffect → Instant → SessionManager → SessionManager
unfolding apply
apply_all [] now m = m
apply_all (effect ∷ effects) now m = apply_all effects now (apply effect now m)

unfoldable pub register_session :
    Instant
    → SessionManager
    → Outcome SessionManagerError ((SessionId × SessionHandle) × SessionManager)
unfolding try_reserve insert new_record
register_session started_at m = elim (try_reserve m.registry) [
  | err e ↦ err session_limit_reached
  | panic ↦ panic
  | ok (guard, reserved) ↦
      let (session, stored) = insert guard (new_record (active started_at 0) started_at) reserved in
      ok (session, record m { registry = stored })
]

-- The record that the transition leaves.
unfoldable pub enter : SessionState → Instant → SessionRecord → SessionRecord
enter next now s = record s { state = next; last_activity = now }

-- The transition of one record, and its effects.
unfoldable pub apply_event :
    SessionId
    → SessionEvent
    → Instant
    → SessionHandle
    → SessionRecord
    → SessionManager
    → SessionManager
unfolding transition enter apply_all with_record
apply_event id event now handle current m =
    let (next_state, effects) = transition current.state id event m.config.idle_timeout in
    let entered = record m { registry = with_record handle (enter next_state now) m.registry } in
    apply_all effects now entered

-- The second `none` is a handle without a record, which the source's `Arc` rules out.
unfoldable pub handle_event :
    SessionId
    → SessionEvent
    → Instant
    → SessionManager
    → Outcome SessionManagerError (Unit {0}) × SessionManager
unfolding get snapshot apply_event
handle_event id event now m = elim (get id m.registry) [
  | none ↦ (err (session_not_found id), m)
  | some handle ↦ elim (snapshot handle m.registry) [
    | none ↦ (panic, m)
    | some current ↦ (ok tt, apply_event id event now handle current m)
  ]
]

-- `handle.with_record(|record| record.last_activity = Instant::now())`
unfoldable pub touch : Instant → SessionRecord → SessionRecord
touch now s = record s { last_activity = now }

-- After the selector returned `resolved`: the stream is handed out if the event was applied.
unfoldable pub finish_resolve :
    SessionId
    → SessionHandle
    → ResolvedStream ⊎ TransportSelectError
    → Instant
    → SessionManager
    → Outcome SessionManagerError ResolvedStream × SessionManager
unfolding touch with_record handle_event
finish_resolve id handle (inr e) now m = (err (transport_resolution_failed e), m)
finish_resolve id handle (inl stream) now m =
    let touched = record m { registry = with_record handle (touch now) m.registry } in
    let (result, next) = handle_event id stream_opened now touched in
    (result >>= (λ _. ok stream), next)

-- `selected` is the selector's answer (`Selector.open_stream`), `others` what happens meanwhile.
unfoldable pub resolve_stream :
    SessionId
    → ResolvedStream ⊎ TransportSelectError
    → (SessionManager → SessionManager)
    → Instant
    → SessionManager
    → Outcome SessionManagerError ResolvedStream × SessionManager
unfolding get snapshot finish_resolve
resolve_stream id selected others now m = elim (get id m.registry) [
  | none ↦ (err (session_not_found id), m)
  | some handle ↦ elim (snapshot handle m.registry) [
    | none ↦ (panic, m)
    | some current ↦
        if not current.accepting_new_streams
        then (err (session_not_accepting_new_streams id), m)
        else finish_resolve id handle selected now (others m)
  ]
]

-- The write that `shutdown` makes to each drained handle.
unfoldable pub shut_down : Instant → SessionRecord → SessionRecord
shut_down now s = record s { accepting_new_streams = false; state = closed; last_activity = now }

unfoldable pub shut_down_all : List SessionHandle → Instant → SessionRegistry → SessionRegistry
unfolding shut_down with_record
shut_down_all [] now r = r
shut_down_all (handle ∷ handles) now r =
    shut_down_all handles now (with_record handle (shut_down now) r)

unfoldable pub shutdown : Instant → SessionManager → ℕ × SessionManager
unfolding drain_all shut_down_all
shutdown now m =
    let (drained, emptied) = drain_all m.registry in
    (length drained, record m { registry = shut_down_all drained now emptied })
