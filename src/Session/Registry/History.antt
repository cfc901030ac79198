-- ===== src/Session/Registry/History.antt =====
-- What src/session/registry.rs guarantees over every history of calls: its capacity.
use newghost.Prelude.{
  ℕ, zero, suc, ◌+◌, ◌≡◌, ◌↔◌, arith, Bool, List, [], ◌∷◌, ◌==◌, Bool-cases, inl, inr,
}
use newghost.Prelude.Outcome.{ok, err}
use newghost.Time.{Instant, Duration}
use newghost.Session.Effects.{SessionId}
use newghost.Session.Registry.Defs.{
  SessionRecord, SessionHandle, permit, at_capacity, SessionRegistry, new, with_record, try_reserve,
  drop_guard, insert, remove, drain_all, reap_idle, session_count, available_slots, refuse_streams,
  shut_streams, stop_streams, end_streams,
}
use newghost.Session.Registry.Invariant.{
  Inv, new-Inv, reserve-Inv, drop-Inv, insert-Inv, remove-Inv, drain_all-Inv, reap_idle-Inv,
  with_record-Inv, change_session-Inv,
}

-- The calls that the callers of the registry make, in any order. `write` is `with_record` on a
-- handle that a caller has kept, also after its session left the map.
pub data Operation : Type 0 where
  reserve cancel_reservation drain : Operation
  register : SessionRecord → Operation
  deregister refuse : SessionId → Operation
  reap : Duration → Instant → Operation
  shut : SessionId → Bool → Instant → Operation
  write : SessionHandle → (SessionRecord → SessionRecord) → Operation

-- The reservations that the callers hold, and the registry.
pub record World : Type 0 where
  pub guards : ℕ
  pub registry : SessionRegistry

-- A reservation that is refused changes nothing.
after_reserve : ℕ → SessionRegistry → World
after_reserve guards r = elim (try_reserve r) [
  | ok (guard, r') ↦ record { guards = guards + 1; registry = r' }
  | _ ↦ record { guards = guards; registry = r }
]

-- `insert` and the drop of a guard want a guard.
with_guard : ℕ → SessionRegistry → SessionRegistry → World
with_guard zero r r' = record { guards = 0; registry = r }
with_guard (suc guards) r r' = record { guards = guards; registry = r' }

step : World → Operation → World
unfolding after_reserve with_guard
step w reserve = after_reserve w.guards w.registry
step w cancel_reservation = with_guard w.guards w.registry (drop_guard permit w.registry)
step w (register s) = with_guard w.guards w.registry (insert permit s w.registry).1
step w drain = record w { registry = (drain_all w.registry).1 }
step w (deregister id) = record w { registry = (remove id w.registry).1 }
step w (refuse id) = record w { registry = refuse_streams id w.registry }
step w (reap max_idle now) = record w { registry = (reap_idle max_idle now w.registry).1 }
step w (shut id graceful now) = record w { registry = shut_streams id graceful now w.registry }
step w (write handle change) = record w { registry = with_record handle change w.registry }

pub run : World → List Operation → World
unfolding step
run w [] = w
run w (o ∷ os) = run (step w o) os

abbrev pub start : ℕ → World
start max_sessions = record { guards = 0; registry = new max_sessions }

after_reserve-Inv :
    {max guards : ℕ} {r : SessionRegistry}
    → Inv max guards r
    → Inv max (after_reserve guards r).guards (after_reserve guards r).registry
unfolding after_reserve try_reserve
after_reserve-Inv {r} v = elim (Bool-cases (r.available == 0)) [
  | inl full ↦ rw (full, after_reserve) v
  | inr free ↦ rw (free, after_reserve) (reserve-Inv v _ (unfold try_reserve in rw free))
]

with_guard-Inv :
    {max : ℕ} (guards : ℕ) {r r' : SessionRegistry}
    → Inv max guards r
    → ((k : ℕ) → guards ≡ k + 1 → Inv max k r')
    → Inv max (with_guard guards r r').guards (with_guard guards r r').registry
unfolding with_guard
with_guard-Inv zero v used = v
with_guard-Inv (suc guards) v used = used guards (omega arith)

step-Inv :
    {max : ℕ} (w : World) (o : Operation)
    → Inv max w.guards w.registry
    → Inv max (step w o).guards (step w o).registry
unfolding step
step-Inv w reserve v = after_reserve-Inv v
step-Inv w cancel_reservation v = with_guard-Inv w.guards v (λ k e. drop-Inv (rw e at v))
step-Inv w (register s) v = with_guard-Inv w.guards v (λ k e. insert-Inv s (rw e at v))
step-Inv w drain v = drain_all-Inv v
step-Inv w (deregister id) v = remove-Inv id v
step-Inv w (refuse id) v = unfold refuse_streams in change_session-Inv id stop_streams v
step-Inv w (reap max_idle now) v = reap_idle-Inv max_idle now v
step-Inv w (shut id graceful now) v =
    unfold shut_streams in change_session-Inv id (end_streams graceful now) v
step-Inv w (write handle change) v = with_record-Inv handle change v

run-Inv :
    {max : ℕ} (w : World) (os : List Operation)
    → Inv max w.guards w.registry
    → Inv max (run w os).guards (run w os).registry
unfolding run
run-Inv w [] v = v
run-Inv w (o ∷ os) v = run-Inv (step w o) os (step-Inv w o v)

-- After every history of calls on a new registry, the free slots, the reservations in hand and the
-- stored sessions add up to the capacity, and a reservation is refused exactly when the last two
-- fill it.
pub run_capacity :
    (max_sessions : ℕ) (os : List Operation)
    → let w = run (start max_sessions) os in
      (available_slots w.registry + w.guards + session_count w.registry ≡ max_sessions)
      × ((try_reserve w.registry ≡ err at_capacity)
          ↔ (w.guards + session_count w.registry ≡ max_sessions))
unfolding available_slots session_count try_reserve
run_capacity max_sessions os =
    let v = run-Inv (start max_sessions) os (new-Inv max_sessions) in ground (arith, v.permits)
