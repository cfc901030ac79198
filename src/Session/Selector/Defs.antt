-- ===== src/Session/Selector/Defs.antt =====
-- src/session/transport_selector.rs with the time that passes written out. An adapter's future and
-- the cancellation token are given by when they become ready, counted from the call's start; where
-- both are ready at once `tokio::select!` may take either, which `prefers_cancel` decides.
use Prim.Native.String.{String}
use newghost.Prelude.{
  ℕ, ◌+◌, ◌/◌, max, Bool, false, ◌||◌, ◌&&◌, Option, none, some, leb, ltb, ◌==◌, if◌then◌else◌, ◌⊎◌,
  inl, inr,
}
use newghost.Time.{Instant, Duration}
use newghost.Transport.{ResolvedStream}

pub record TransportSelectorConfig : Type 0 where
  pub iroh_timeout : Duration
  pub wss_timeout : Duration
  pub safety_timeout : Duration

-- The text of a failed attempt: the adapter's own, or `timeout after {}ms`.
pub data AttemptError : Type 0 where
  adapter_error : String → AttemptError
  timeout_after : ℕ → AttemptError

pub data TransportSelectError : Type 0 where
  cancelled contract_violation : TransportSelectError
  all_failed : Option AttemptError → Option AttemptError → TransportSelectError

-- What `adapter.open_stream` does when it is polled: it never ends, or it ends after some time.
pub data Opening : Type 0 where
  never : Opening
  resolves : Duration → ResolvedStream → Opening
  fails : Duration → String → Opening

pub record Environment : Type 0 where
  pub iroh_opening : Opening
  pub wss_opening : Opening
  pub cancel_at : Option Instant
  pub prefers_cancel : Instant → Bool

-- The answer of `tokio::time::timeout(timeout, adapter.open_stream(..))`, with its instant.
pub data Answer : Type 0 where
  answered : ResolvedStream → Answer
  refused : String → Answer
  elapsed : Answer

pub data AttemptOutcome : Type 0 where
  resolved : ResolvedStream → AttemptOutcome
  cancelled : AttemptOutcome
  failed : AttemptError → AttemptOutcome

-- The inner future is polled before the timer, so an answer at the deadline is in time.
unfoldable pub within : Instant → Duration → Opening → Answer × Instant
within start timeout never = (elapsed, start + timeout)
within start timeout (resolves d stream) =
    if leb d timeout then (answered stream, start + d) else (elapsed, start + timeout)
within start timeout (fails d text) =
    if leb d timeout then (refused text, start + d) else (elapsed, start + timeout)

-- `token.is_cancelled()` at an instant.
abbrev pub is_cancelled : Option Instant → Instant → Bool
is_cancelled none now = false
is_cancelled (some c) now = leb c now

-- Whether the branch of the token wins the race that the answer joins at `ready`.
abbrev pub cancel_wins : Environment → Instant → Bool
cancel_wins env ready = elim env.cancel_at [
  | none ↦ false
  | some c ↦ ltb c ready || (c == ready && env.prefers_cancel ready)
]

-- The instant of the cancellation, within an attempt that runs from `start`.
abbrev cancelled_from : Option Instant → Instant → Instant
cancelled_from none start = start
cancelled_from (some c) start = max c start

abbrev conclude : Environment → Duration → Answer → Instant → AttemptOutcome
conclude env timeout (answered stream) ready = resolved stream
conclude env timeout (refused text) ready =
    if is_cancelled env.cancel_at ready then cancelled else failed (adapter_error text)
conclude env timeout elapsed ready = failed (timeout_after (timeout / 1_000_000))

unfoldable pub attempt_with_timeout :
    Environment → Instant → Duration → Opening → AttemptOutcome × Instant
unfolding within
attempt_with_timeout env start timeout opening =
    let (answer, ready) = within start timeout opening in
    if cancel_wins env ready
    then (cancelled, cancelled_from env.cancel_at start)
    else (conclude env timeout answer ready, ready)

-- The result of a call, the instant at which it is there, and when the WSS attempt began, if any.
pub record Selection : Type 0 where
  pub result : ResolvedStream ⊎ TransportSelectError
  pub at : Instant
  pub wss_from : Option Instant

abbrev after_wss : AttemptError → Instant → AttemptOutcome × Instant → Selection
after_wss iroh_err from (resolved stream, t) = record {
  result = inl stream;
  at = t;
  wss_from = some from;
}
after_wss iroh_err from (cancelled, t) = record {
  result = inr cancelled;
  at = t;
  wss_from = some from;
}
after_wss iroh_err from (failed wss_err, t) = record {
  result = inr (all_failed (some iroh_err) (some wss_err));
  at = t;
  wss_from = some from;
}

abbrev after_iroh : TransportSelectorConfig → Environment → AttemptOutcome × Instant → Selection
after_iroh config env (resolved stream, t) = record { result = inl stream; at = t; wss_from = none }
after_iroh config env (cancelled, t) = record { result = inr cancelled; at = t; wss_from = none }
after_iroh config env (failed iroh_err, t) =
    after_wss iroh_err t (attempt_with_timeout env t config.wss_timeout env.wss_opening)

-- An attempt that would begin later than the safety timeout does not begin.
abbrev begun_by : Instant → Option Instant → Option Instant
begun_by limit none = none
begun_by limit (some from) = if leb from limit then some from else none

-- The call starts at instant 0.
unfoldable pub open_stream_inner : TransportSelectorConfig → Environment → Selection
unfolding attempt_with_timeout
open_stream_inner config env =
    if is_cancelled env.cancel_at 0
    then record { result = inr cancelled; at = 0; wss_from = none }
    else after_iroh config env (attempt_with_timeout env 0 config.iroh_timeout env.iroh_opening)

-- The same under the safety timeout, which drops the inner future when it strikes first.
unfoldable pub open_stream : TransportSelectorConfig → Environment → Selection
unfolding open_stream_inner
open_stream config env =
    let inner = open_stream_inner config env in
    if leb inner.at config.safety_timeout then inner else record {
      result = inr contract_violation;
      at = config.safety_timeout;
      wss_from = begun_by config.safety_timeout inner.wss_from;
    }
