-- ===== src/Session/State/Defs.antt =====
-- src/session/state.rs: states, events, close reasons and `transition`.
use Prim.Native.String.{String}
use newghost.Prelude.{ℕ, ◌+◌, ◌-◌, ◌^◌, min, List, [], ◌∷◌, true, false, ◌==◌, if◌then◌else◌}
use newghost.Time.{Instant, Duration}
use newghost.Session.Effects.{
  SessionId, RegistryCommand, TimerCommand, MetricEvent, SessionEffect, registry, timer, metric,
}

pub data CloseReason : Type 0 where
  client_disconnect auth_revoked drain_shutdown idle_timeout transport_lost : CloseReason

pub data SessionState : Type 0 where
  active : Instant → ℕ → SessionState
  closing : CloseReason → Instant → SessionState
  closed : SessionState

pub data SessionEvent : Type 0 where
  stream_opened stream_closed : SessionEvent
  transport_lost drain_requested : Instant → SessionEvent
  deadline_reached : SessionEvent

unfoldable pub as_metric_reason : CloseReason → String
as_metric_reason client_disconnect = "client_disconnect"
as_metric_reason auth_revoked = "auth_revoked"
as_metric_reason drain_shutdown = "drain_shutdown"
as_metric_reason idle_timeout = "idle_timeout"
as_metric_reason CloseReason.transport_lost = "transport_lost"

-- `u32::MAX`.
abbrev pub u32_max : ℕ
u32_max = 2 ^ 32 - 1

-- `stream_count.saturating_add(1)` on a `u32`.
unfoldable pub saturating_inc : ℕ → ℕ
saturating_inc n = min (n + 1) u32_max

-- The effects of the branch that retires the session with its last stream.
unfoldable pub retire : SessionId → List SessionEffect
unfolding as_metric_reason
retire id =
    timer (TimerCommand.cancel_idle id)
    ∷ registry (RegistryCommand.remove id)
    ∷ metric (MetricEvent.session_closed id (as_metric_reason client_disconnect))
    ∷ []

unfoldable pub close_stream : SessionId → Instant → ℕ → SessionState × List SessionEffect
unfolding retire
close_stream id since next_count =
    if next_count == 0
    then (closed, metric (MetricEvent.stream_closed id next_count) ∷ retire id)
    else (active since next_count, metric (MetricEvent.stream_closed id next_count) ∷ [])

-- The idle timeout is a parameter that the source does not read.
unfoldable pub transition :
    SessionState → SessionId → SessionEvent → Duration → SessionState × List SessionEffect
unfolding as_metric_reason saturating_inc close_stream
transition (active since stream_count) id stream_opened _idle = (
  active since (saturating_inc stream_count),
  timer (TimerCommand.cancel_idle id)
      ∷ metric (MetricEvent.stream_opened id (saturating_inc stream_count))
      ∷ [],
)
transition (active since stream_count) id stream_closed _idle =
    close_stream id since (stream_count - 1)
transition (active since stream_count) id (transport_lost deadline) _idle = (
  closing CloseReason.transport_lost deadline,
  registry (RegistryCommand.close_streams id true)
      ∷ metric (MetricEvent.session_closing id (as_metric_reason CloseReason.transport_lost))
      ∷ [],
)
transition (active since stream_count) id (drain_requested deadline) _idle = (
  closing drain_shutdown deadline,
  registry (RegistryCommand.mark_no_new_streams id)
      ∷ registry (RegistryCommand.close_streams id true)
      ∷ timer (TimerCommand.cancel_idle id)
      ∷ metric (MetricEvent.session_closing id (as_metric_reason drain_shutdown))
      ∷ [],
)
transition (closing reason deadline) id deadline_reached _idle = (
  closed,
  registry (RegistryCommand.close_streams id false)
      ∷ registry (RegistryCommand.remove id)
      ∷ timer (TimerCommand.cancel_idle id)
      ∷ metric (MetricEvent.session_closed id (as_metric_reason reason))
      ∷ [],
)
transition closed id event _idle = (closed, [])
transition state id event _idle = (state, [])
