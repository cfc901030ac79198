-- ===== src/Session/Selector/Timing.antt =====
-- The bounds on the time of a selection.
use newghost.Prelude.{◌+◌, ◌≤◌, ◌≡◌, arith, inl, inr, Bool-cases}
use newghost.Time.{Instant, Duration}
use newghost.Session.Selector.Defs.{
  TransportSelectorConfig, Opening, never, resolves, fails, Environment, attempt_with_timeout,
  within, open_stream_inner, open_stream, is_cancelled,
}

within-le :
    (start : Instant) (timeout : Duration) (o : Opening)
    → (start ≤ (within start timeout o).1) × ((within start timeout o).1 ≤ start + timeout)
unfolding within
within-le start timeout never = omega arith
within-le start timeout (resolves d s) = ground arith
within-le start timeout (fails d t) = ground arith

-- An attempt ends within its timeout, unless the token was cancelled before it began.
attempt-le :
    (env : Environment) (start : Instant) (timeout : Duration) (o : Opening)
    → (start ≤ (attempt_with_timeout env start timeout o).1)
      × ((attempt_with_timeout env start timeout o).1 ≤ start + timeout)
unfolding attempt_with_timeout
attempt-le env start timeout o = ground (arith, within-le start timeout o)

after_iroh-le :
    (config : TransportSelectorConfig) (env : Environment)
    → (open_stream_inner config env).at ≤ config.iroh_timeout + config.wss_timeout
unfolding open_stream_inner
after_iroh-le config env = elim (Bool-cases (is_cancelled env.cancel_at 0)) [
  | inl c ↦ ground (arith, c)
  | inr c ↦ ground (
    arith,
    c,
    attempt-le env 0 config.iroh_timeout env.iroh_opening,
    attempt-le env (attempt_with_timeout env 0 config.iroh_timeout env.iroh_opening).1
        config.wss_timeout env.wss_opening,
  )
]

-- A selection ends within the safety timeout, and one without the safety timeout within the sum of
-- the two attempts' timeouts.
pub open_stream_bounded :
    (config : TransportSelectorConfig) (env : Environment)
    → ((open_stream config env).at ≤ config.safety_timeout)
      × ((open_stream_inner config env).at ≤ config.iroh_timeout + config.wss_timeout)
unfolding open_stream
open_stream_bounded config env = (ground arith, after_iroh-le config env)

pub open_stream_inner_lem :
    (config : TransportSelectorConfig) (env : Environment)
    → config.iroh_timeout + config.wss_timeout ≤ config.safety_timeout
    → open_stream config env ≡ open_stream_inner config env
unfolding open_stream
open_stream_inner_lem config env fits = ground (arith, after_iroh-le config env)
