-- ===== src/Examples/Registries.antt =====
-- The theorems on src/session/state.rs and src/session/registry.rs at concrete inputs.
use newghost.Prelude.{◌+◌, ◌≡◌, ◌↔◌, refl, arith, true, List, [], ◌∷◌}
use newghost.Prelude.Outcome.{err}
use newghost.Map
use newghost.Session.State.{SessionEvent, active, stream_opened, stream_closed, transition}
use newghost.Session.State.Laws.{run, removals, run_removes_once}
use newghost.Session.Registry.{
  SessionRecord, SessionRegistry, at_capacity, try_reserve, available_slots, session_count,
}
use newghost.Session.Registry.Invariant.{Inv}
use newghost.Session.Registry.History.{
  Operation, reserve, register, reap, deregister, run_capacity, start, World,
}
use newghost.Session.Registry.History

-- One stream opens and closes; a second stream outlives the loss of the transport.
abbrev short_life : List SessionEvent
short_life = stream_opened ∷ stream_closed ∷ stream_opened ∷ []

run_removes_once_example : removals (run (active 5 0) 1 short_life 60).1 ≡ 1
unfolding run transition
run_removes_once_example = run_removes_once (active 5 0) 1 short_life 60 refl

abbrev busy : SessionRecord
busy = record { state = active 5 2; accepting_new_streams = true; last_activity = 90 }

abbrev idle : SessionRecord
idle = record { state = active 1 0; accepting_new_streams = true; last_activity = 10 }

-- Two of three slots are taken, by the sessions 1 and 2.
abbrev two_sessions : SessionRegistry
two_sessions = record {
  sessions = (2, 1) ∷ (1, 0) ∷ [];
  available = 1;
  next_session_id = 3;
  records = idle ∷ busy ∷ [];
}

two_sessions-Inv : Inv 3 0 two_sessions
unfolding Map.lookup
two_sessions-Inv = record {
  distinct = (refl, (refl, tt));
  owned = (omega arith, (omega arith, tt));
  permits = refl;
}

abbrev calls : List Operation
calls = reserve ∷ register idle ∷ reserve ∷ reserve ∷ reap 10 50 ∷ []

run_capacity_example :
    (available_slots (History.run (start 2) calls).registry
        + (History.run (start 2) calls).guards
        + session_count (History.run (start 2) calls).registry
      ≡ 2)
    × ((try_reserve (History.run (start 2) calls).registry ≡ err at_capacity) ↔ (
        (History.run (start 2) calls).guards + session_count (History.run (start 2) calls).registry
        ≡ 2))
run_capacity_example = run_capacity 2 calls
