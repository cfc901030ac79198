-- ===== src/Session/Selector/Choice.antt =====
-- Which stream a selection returns.
use newghost.Prelude.{
  ◌+◌, ◌/◌, ◌≤◌, ◌≡◌, arith, refl, none, some, inl, inr, ◌⊎◌, leb, if◌then◌else◌,
}
use newghost.Time.{Instant, Duration}
use newghost.Transport.{ResolvedStream}
use newghost.Session.Selector.Defs.{
  TransportSelectorConfig, TransportSelectError, all_failed, AttemptError, adapter_error,
  timeout_after, Opening, never, resolves, fails, Environment, AttemptOutcome, resolved, failed,
  attempt_with_timeout, open_stream_inner, open_stream,
}
use newghost.Session.Selector.Timing.{open_stream_inner_lem}

-- What an adapter alone achieves within a timeout.
abbrev pub alone : Duration → Opening → ResolvedStream ⊎ AttemptError
alone timeout never = inr (timeout_after (timeout / 1_000_000))
alone timeout (resolves d stream) =
    if leb d timeout then inl stream else inr (timeout_after (timeout / 1_000_000))
alone timeout (fails d text) =
    if leb d timeout then inr (adapter_error text) else inr (timeout_after (timeout / 1_000_000))

-- iroh's stream if iroh has one in time, else WSS's, else both errors.
abbrev pub first_of_both :
    ResolvedStream ⊎ AttemptError
    → ResolvedStream ⊎ AttemptError
    → ResolvedStream ⊎ TransportSelectError
first_of_both (inl stream) second = inl stream
first_of_both (inr iroh_err) (inl stream) = inl stream
first_of_both (inr iroh_err) (inr wss_err) = inr (all_failed (some iroh_err) (some wss_err))

abbrev as_outcome : ResolvedStream ⊎ AttemptError → AttemptOutcome
as_outcome (inl stream) = resolved stream
as_outcome (inr e) = failed e

attempt_alone :
    (env : Environment) (start : Instant) (timeout : Duration) (o : Opening)
    → env.cancel_at ≡ none
    → (attempt_with_timeout env start timeout o).0 ≡ as_outcome (alone timeout o)
unfolding attempt_with_timeout
attempt_alone env start timeout never h = rw h refl
attempt_alone env start timeout (resolves d s) h = ground arith
attempt_alone env start timeout (fails d t) h = ground arith

-- A call that is not cancelled, under a safety timeout that leaves room for both attempts, returns
-- what the two adapters achieve alone, iroh first and WSS only where iroh failed.
pub open_stream_prefers_iroh :
    (config : TransportSelectorConfig) (env : Environment)
    → env.cancel_at ≡ none
    → config.iroh_timeout + config.wss_timeout ≤ config.safety_timeout
    → (open_stream config env).result
      ≡ first_of_both
          (alone config.iroh_timeout env.iroh_opening)
          (alone config.wss_timeout env.wss_opening)
unfolding open_stream_inner
open_stream_prefers_iroh config env h fits = rw (open_stream_inner_lem config env fits) (
    ground (
      arith,
      attempt_alone env 0 config.iroh_timeout env.iroh_opening h,
      attempt_alone env (attempt_with_timeout env 0 config.iroh_timeout env.iroh_opening).1
          config.wss_timeout env.wss_opening h,
    ))

-- A selection that returns a stream has it no later than the instant at which the token is
-- cancelled.
pub open_stream_honours_cancel :
    (config : TransportSelectorConfig) (env : Environment) (c : Instant) (stream : ResolvedStream)
    → env.cancel_at ≡ some c
    → (open_stream config env).result ≡ inl stream
    → (open_stream config env).at ≤ c
unfolding open_stream open_stream_inner attempt_with_timeout
open_stream_honours_cancel config env c stream h e = ground arith
