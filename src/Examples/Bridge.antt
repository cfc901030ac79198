-- ===== src/Examples/Bridge.antt =====
-- The theorems on src/proxy_bridge/mod.rs and on the replies of src/socks5/mod.rs at concrete inputs.
use newghost.Prelude.{ℕ, ◌+◌, ◌≡◌, refl, arith, false, none, some, [], ◌∷◌, inl, inr}
use newghost.Prelude.Outcome.{ok, err}
use newghost.Map
use newghost.Transport.{ResolvedStream, wss}
use newghost.Session.State.{active}
use newghost.Session.Registry.{SessionHandle, new_record, get, snapshot}
use newghost.Session.Selector.{cancelled}
use newghost.Session.Manager.{SessionManager}
use newghost.Socks5.Reply.{transport_failed, selection, succeeded, general_failure}
use newghost.ProxyBridge.{
  Course, Processed, pump, client_eof, client_read, transport_read, process_intent,
}
use newghost.ProxyBridge.Pump.{from_client, from_transport, pump_forwards}
use newghost.ProxyBridge.Slots.{failed_request_keeps_session, completed_request_frees_slot}

abbrev fresh_manager : SessionManager
fresh_manager = record {
  config = record { idle_timeout = 60; graceful_shutdown_timeout = 30 };
  registry = record { sessions = []; available = 2; next_session_id = 1; records = [] };
  timers = [];
  metrics = [];
}

abbrev by_wss : ResolvedStream
by_wss = record { stream = 7; transport_kind = wss }

-- The client sends two bytes, gets one, and ends.
abbrev served : Course
served = record {
  started_at = 5;
  selected = inl by_wss;
  times_out = false;
  while_resolving = λ m. m;
  resolved_at = 6;
  events = client_read (1 ∷ 2 ∷ []) none ∷ transport_read (3 ∷ []) none ∷ client_eof ∷ [];
  while_pumping = λ m. m;
  closed_at = 9;
}

abbrev unserved : Course
unserved = record served { selected = inr cancelled }

unused : get fresh_manager.registry.next_session_id fresh_manager.registry ≡ none
unfolding get Map.lookup
unused = refl

pumped :
    pump served.events (record { to_transport = []; to_client = [] })
    ≡ some (ok tt, record { to_transport = 1 ∷ 2 ∷ []; to_client = 3 ∷ [] })
unfolding pump
pumped = refl

completed_request_frees_slot_example :
    (done : Processed) × (process_intent served fresh_manager ≡ some done)
    × (done.result ≡ ok tt)
    × (done.replies ≡ succeeded ∷ [])
    × (get 1 done.manager.registry ≡ none)
    × (done.manager.registry.available ≡ 2)
completed_request_frees_slot_example =
    completed_request_frees_slot served by_wss (ok tt)
      (record { to_transport = 1 ∷ 2 ∷ []; to_client = 3 ∷ [] }) fresh_manager (omega arith) unused
      refl refl refl refl pumped

failed_request_keeps_session_example :
    (done : Processed) × (id : ℕ) × (h : SessionHandle) × (process_intent unserved fresh_manager
      ≡ some done)
    × (done.result ≡ err (transport_failed (selection cancelled)))
    × (done.replies ≡ general_failure ∷ [])
    × (get id done.manager.registry ≡ some h)
    × (done.manager.registry.available + 1 ≡ 2)
    × (snapshot h done.manager.registry
        ≡ some (record (new_record (active 5 0) 5) { last_activity = 9 }))
failed_request_keeps_session_example =
    failed_request_keeps_session unserved cancelled fresh_manager (omega arith) unused refl refl
      refl

pump_forwards_example :
    pump served.events (record { to_transport = []; to_client = [] })
    ≡ some (ok tt, record { to_transport = 1 ∷ 2 ∷ []; to_client = 3 ∷ [] })
pump_forwards_example =
    pump_forwards (from_client (1 ∷ 2 ∷ []) ∷ from_transport (3 ∷ []) ∷ []) client_eof []
      (record { to_transport = []; to_client = [] }) (ok tt) refl
