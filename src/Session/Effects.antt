-- ===== src/Session/Effects.antt =====
-- src/session/effects.rs: the typed effects that a transition emits, and where each goes.
use Prim.Native.String.{String}
use newghost.Prelude.{ℕ, Bool}
use newghost.Time.{Duration}

abbrev pub SessionId : Type 0
SessionId = ℕ

pub data RegistryCommand : Type 0 where
  mark_no_new_streams : SessionId → RegistryCommand
  close_streams : SessionId → Bool → RegistryCommand
  remove : SessionId → RegistryCommand

pub data TimerCommand : Type 0 where
  schedule_idle : SessionId → Duration → TimerCommand
  cancel_idle : SessionId → TimerCommand

pub data MetricEvent : Type 0 where
  stream_opened : SessionId → ℕ → MetricEvent
  stream_closed : SessionId → ℕ → MetricEvent
  session_closing : SessionId → String → MetricEvent
  session_closed : SessionId → String → MetricEvent

pub data SessionEffect : Type 0 where
  registry : RegistryCommand → SessionEffect
  timer : TimerCommand → SessionEffect
  metric : MetricEvent → SessionEffect
