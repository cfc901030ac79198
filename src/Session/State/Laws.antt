-- ===== src/Session/State/Laws.antt =====
-- What the state machine of src/session/state.rs guarantees, for every sequence of events.
use newghost.Prelude.{
  ℕ, zero, suc, ◌+◌, ◌-◌, ◌≤◌, ◌<◌, ◌≡◌, refl, arith, Bool, true, false, List, [], ◌∷◌, ◌++◌,
  if◌then◌else◌, ◌==◌,
}
use newghost.Time.{Instant, Duration}
use newghost.Session.Effects.{
  SessionId, RegistryCommand, TimerCommand, MetricEvent, SessionEffect, registry, timer, metric,
}
use newghost.Session.State.Defs.{
  SessionState, active, closing, closed, SessionEvent, stream_opened, stream_closed, u32_max,
  transition,
}

-- The events in their order, with the effects one after the other.
unfoldable pub run :
    SessionState → SessionId → List SessionEvent → Duration → SessionState × List SessionEffect
run s id [] idle = (s, [])
run s id (e ∷ es) idle =
    let (s', out) = transition s id e idle in
    let (s'', outs) = run s' id es idle in (s'', out ++ outs)

abbrev pub is_closed : SessionState → Bool
is_closed closed = true
is_closed (active t n) = false
is_closed (closing r t) = false

abbrev pub removes_one : SessionEffect → ℕ
removes_one (registry (RegistryCommand.remove id)) = 1
removes_one (registry (RegistryCommand.mark_no_new_streams id)) = 0
removes_one (registry (RegistryCommand.close_streams id g)) = 0
removes_one (timer c) = 0
removes_one (metric e) = 0

-- How many of the effects take the session out of the registry.
abbrev pub removals : List SessionEffect → ℕ
removals [] = 0
removals (e ∷ es) = removes_one e + removals es

removals-append : (xs ys : List SessionEffect) → removals (xs ++ ys) ≡ removals xs + removals ys
removals-append [] ys = omega arith
removals-append (x ∷ xs) ys = omega (arith, removals-append xs ys)

abbrev pub closed_count : SessionState → ℕ
closed_count s = if is_closed s then 1 else 0

-- One event: a `Remove` is emitted exactly at the step that closes the session.
pub transition-removals :
    (s : SessionState) (id : SessionId) (e : SessionEvent) (idle : Duration)
    → removals (transition s id e idle).1 + closed_count s ≡ closed_count (transition s id e idle).0
unfolding transition
transition-removals (active t n) id stream_closed idle = ground arith
transition-removals (active t n) id _ idle = refl
transition-removals (closing r t) id _ idle = ground arith
transition-removals closed id _ idle = refl

run-removals :
    (s : SessionState) (id : SessionId) (es : List SessionEvent) (idle : Duration)
    → removals (run s id es idle).1 + closed_count s ≡ closed_count (run s id es idle).0
unfolding run
run-removals s id [] idle = omega arith
run-removals s id (e ∷ es) idle =
    let next = transition s id e idle in
    omega (
      arith,
      transition-removals s id e idle,
      run-removals next.0 id es idle,
      removals-append next.1 (run next.0 id es idle).1,
    )

-- For a session that is not yet closed and every sequence of events, the effects hold one `Remove`
-- if the session ends closed, and none if it does not.
pub run_removes_once :
    (s : SessionState) (id : SessionId) (es : List SessionEvent) (idle : Duration)
    → is_closed s ≡ false
    → removals (run s id es idle).1 ≡ (if is_closed (run s id es idle).0 then 1 else 0)
run_removes_once s id es idle h = ground (arith, run-removals s id es idle)

abbrev registry_id : RegistryCommand → SessionId
registry_id (RegistryCommand.mark_no_new_streams id) = id
registry_id (RegistryCommand.close_streams id g) = id
registry_id (RegistryCommand.remove id) = id

abbrev timer_id : TimerCommand → SessionId
timer_id (TimerCommand.schedule_idle id d) = id
timer_id (TimerCommand.cancel_idle id) = id

abbrev metric_id : MetricEvent → SessionId
metric_id (MetricEvent.stream_opened id n) = id
metric_id (MetricEvent.stream_closed id n) = id
metric_id (MetricEvent.session_closing id r) = id
metric_id (MetricEvent.session_closed id r) = id

-- The session that an effect names.
abbrev pub effect_id : SessionEffect → SessionId
effect_id (registry c) = registry_id c
effect_id (timer c) = timer_id c
effect_id (metric e) = metric_id e

abbrev pub AllName : SessionId → List SessionEffect → Type 0
AllName id [] = Unit {0}
AllName id (e ∷ es) = (effect_id e ≡ id) × AllName id es

-- Every effect of a transition names the session that the transition was made for.
pub transition-AllName :
    (s : SessionState) (id : SessionId) (e : SessionEvent) (idle : Duration)
    → AllName id (transition s id e idle).1
unfolding transition
transition-AllName (active t n) id stream_closed idle = ground arith
transition-AllName (active t n) id _ idle = ground arith
transition-AllName (closing r t) id _ idle = ground arith
transition-AllName closed id _ idle = tt

-- The place of a state in the lifecycle.
abbrev pub rank : SessionState → ℕ
rank (active t n) = 0
rank (closing r t) = 1
rank closed = 2

abbrev pub StreamBound : SessionState → Type 0
StreamBound (active t n) = n ≤ u32_max
StreamBound (closing r t) = Unit {0}
StreamBound closed = Unit {0}

-- An event on a session whose count of streams fits a `u32` never takes it back in its lifecycle
-- (active, closing, closed), and its count still fits.
pub transition_bounds :
    (s : SessionState) (id : SessionId) (e : SessionEvent) (idle : Duration)
    → StreamBound s
    → (rank s ≤ rank (transition s id e idle).0) × StreamBound (transition s id e idle).0
unfolding transition
transition_bounds (active t n) id stream_opened idle h = ground arith
transition_bounds (active t n) id stream_closed idle h = ground arith
transition_bounds (active t n) id _ idle h = ground arith
transition_bounds (closing r t) id _ idle h = ground arith
transition_bounds closed id _ idle h = ground arith

abbrev pub repeat : ℕ → SessionEvent → List SessionEvent
repeat zero e = []
repeat (suc n) e = e ∷ repeat n e

run-append :
    (s : SessionState) (id : SessionId) (xs ys : List SessionEvent) (idle : Duration)
    → (run s id (xs ++ ys) idle).0 ≡ (run (run s id xs idle).0 id ys idle).0
unfolding run
run-append s id [] ys idle = refl
run-append s id (x ∷ xs) ys idle = run-append (transition s id x idle).0 id xs ys idle

run_opens :
    (n k : ℕ) (t : Instant) (id : SessionId) (idle : Duration)
    → k + n ≤ u32_max
    → (run (active t k) id (repeat n stream_opened) idle).0 ≡ active t (k + n)
unfolding run transition
run_opens zero k t id idle h = ground arith
run_opens (suc n) k t id idle h = ground (arith, run_opens n (k + 1) t id idle)

run_closes :
    (m k : ℕ) (t : Instant) (id : SessionId) (idle : Duration)
    → m ≤ k
    → 0 < k
    → (run (active t k) id (repeat m stream_closed) idle).0
      ≡ (if m == k then closed else active t (k - m))
unfolding run transition
run_closes zero k t id idle h pos = ground arith
run_closes (suc zero) k t id idle h pos = ground arith
run_closes (suc (suc m)) k t id idle h pos = ground (arith, run_closes (suc m) (k - 1) t id idle)

-- A new session that opens `n + 1` streams (no more than a `u32` counts) and closes `m` of them is
-- active with the rest while `m` is at most `n`, and it is closed when the last one closes.
pub streams_retire :
    (n m : ℕ) (t : Instant) (id : SessionId) (idle : Duration)
    → n + 1 ≤ u32_max
    → m ≤ n + 1
    → (run (active t 0) id (repeat (n + 1) stream_opened ++ repeat m stream_closed) idle).0
      ≡ (if m == n + 1 then closed else active t (n + 1 - m))
streams_retire n m t id idle h le =
    rw (run-append (active t 0) id (repeat (n + 1) stream_opened) (repeat m stream_closed) idle) (
      rw (run_opens (n + 1) 0 t id idle (omega arith))
        (ground (arith, run_closes m (n + 1) t id idle)))
