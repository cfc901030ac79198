-- ===== src/Examples/Sessions.antt =====
-- The theorems on src/session/mod.rs at concrete inputs.
use newghost.Prelude.{false, ◌+◌, ◌≡◌, refl, arith, true, none, some, [], ◌∷◌}
use newghost.Session.State.{closed, active, stream_closed, transport_lost, transition}
use newghost.Prelude.Outcome.{ok}
use newghost.Map
use newghost.Transport.{ResolvedStream, iroh_direct}
use newghost.Session.Registry.{SessionRecord, get, snapshot, available_slots, session_count}
use newghost.Session.Registry.Invariant.{Inv}
use newghost.Session.Manager.{SessionManager, handle_event, shutdown}
use newghost.Session.Manager.Slots.{handle_event_slot}
use newghost.Session.Manager.Lifecycle.{closing_record, transport_lost_record}
use newghost.Session.Manager.Shutdown.{shutdown_lem, shutdown_closes}

abbrev session : SessionRecord
session = record { state = active 5 1; accepting_new_streams = true; last_activity = 9 }

abbrev manager : SessionManager
manager = record {
  config = record { idle_timeout = 60; graceful_shutdown_timeout = 30 };
  registry = record {
    sessions = (1, 0) ∷ [];
    available = 2;
    next_session_id = 2;
    records = session ∷ [];
  };
  timers = [];
  metrics = [];
}

manager-Inv : Inv 3 0 manager.registry
unfolding Map.lookup
manager-Inv = record { distinct = (refl, tt); owned = (omega arith, tt); permits = refl }

stored : get 1 manager.registry ≡ some 0
unfolding get Map.lookup
stored = refl

held : snapshot 0 manager.registry ≡ some session
unfolding snapshot
held = refl

handle_event_slot_example :
    ((handle_event 1 stream_closed 20 manager).0 ≡ ok tt)
    × (get 1 (handle_event 1 stream_closed 20 manager).1.registry ≡ none)
    × ((handle_event 1 stream_closed 20 manager).1.registry.available ≡ 2 + 1)
unfolding transition
handle_event_slot_example = handle_event_slot 1 stream_closed 20 0 session manager stored held

transport_lost_record_example :
    snapshot 0 (handle_event 1 (transport_lost 99) 20 manager).1.registry ≡ some (closing_record 20)
transport_lost_record_example = transport_lost_record 1 99 20 5 1 0 session manager stored held refl

abbrev direct : ResolvedStream
direct = record { stream = 4; transport_kind = iroh_direct }

shutdown_lem_example :
    ((shutdown 50 manager).0 ≡ session_count manager.registry)
    × (session_count (shutdown 50 manager).1.registry ≡ 0)
    × (available_slots (shutdown 50 manager).1.registry + 0 ≡ 3)
shutdown_lem_example = shutdown_lem 50 manager manager-Inv

shutdown_closes_example :
    (snapshot 0 (shutdown 50 manager).1.registry
      ≡ some (record { state = closed; accepting_new_streams = false; last_activity = 50 }))
    × (get 1 (shutdown 50 manager).1.registry ≡ none)
shutdown_closes_example = shutdown_closes 50 manager 1 0 session stored held
