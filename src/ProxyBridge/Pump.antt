-- ===== src/ProxyBridge/Pump.antt =====
-- The byte stream that `pump_bidirectional` of src/proxy_bridge/mod.rs forwards.
use newghost.Prelude.{
  ℕ, ◌≡◌, refl, ◌∙◌, Option, none, some, List, [], ◌∷◌, ◌++◌, append_assoc, append-nil,
}
use newghost.Prelude.Outcome.{ok, err}
use newghost.Socks5.Reply.{pump_failed}
use newghost.ProxyBridge.Defs.{
  PumpEvent, client_eof, transport_eof, drain_requested, client_read_failed, transport_read_failed,
  client_read, transport_read, Forwarded, PumpResult, pump,
}

-- A piece of either stream that is read and written in full.
pub data Piece : Type 0 where
  from_client from_transport : List ℕ → Piece

abbrev pub passes : List Piece → List PumpEvent → List PumpEvent
passes [] rest = rest
passes (from_client bytes ∷ pieces) rest = client_read bytes none ∷ passes pieces rest
passes (from_transport bytes ∷ pieces) rest = transport_read bytes none ∷ passes pieces rest

abbrev pub client_bytes : List Piece → List ℕ
client_bytes [] = []
client_bytes (from_client bytes ∷ pieces) = bytes ++ client_bytes pieces
client_bytes (from_transport bytes ∷ pieces) = client_bytes pieces

abbrev pub transport_bytes : List Piece → List ℕ
transport_bytes [] = []
transport_bytes (from_client bytes ∷ pieces) = transport_bytes pieces
transport_bytes (from_transport bytes ∷ pieces) = bytes ++ transport_bytes pieces

-- The outcome with which an event ends the pump, if it does.
abbrev pub ending : PumpEvent → Option PumpResult
ending client_eof = some (ok tt)
ending transport_eof = some (ok tt)
ending drain_requested = some (ok tt)
ending (client_read_failed e) = some (err (pump_failed e))
ending (transport_read_failed e) = some (err (pump_failed e))
ending (client_read bytes (some e)) = some (err (pump_failed e))
ending (transport_read bytes (some e)) = some (err (pump_failed e))
ending (client_read bytes none) = none
ending (transport_read bytes none) = none

pump_ends :
    (event : PumpEvent) (rest : List PumpEvent) (f : Forwarded) (outcome : PumpResult)
    → ending event ≡ some outcome
    → pump (event ∷ rest) f ≡ some (outcome, f)
unfolding pump
pump_ends client_eof rest f outcome h = cc h
pump_ends transport_eof rest f outcome h = cc h
pump_ends drain_requested rest f outcome h = cc h
pump_ends (client_read_failed e) rest f outcome h = cc h
pump_ends (transport_read_failed e) rest f outcome h = cc h
pump_ends (client_read bytes (some e)) rest f outcome h = cc h
pump_ends (transport_read bytes (some e)) rest f outcome h = cc h
pump_ends (client_read bytes none) rest f outcome h = cc h
pump_ends (transport_read bytes none) rest f outcome h = cc h

-- Whatever is read before the event that ends the pump has been forwarded, every byte once and in
-- its order, each direction on its own; the outcome is that of the ending event.
pub pump_forwards :
    (pieces : List Piece) (event : PumpEvent) (rest : List PumpEvent) (f : Forwarded)
    (outcome : PumpResult)
    → ending event ≡ some outcome
    → pump (passes pieces (event ∷ rest)) f
      ≡ some (
        outcome,
        record {
          to_transport = f.to_transport ++ client_bytes pieces;
          to_client = f.to_client ++ transport_bytes pieces;
        },
      )
unfolding pump
pump_forwards [] event rest f outcome h =
    pump_ends event rest f outcome h ∙ rw (append-nil, append-nil) refl
pump_forwards (from_client bytes ∷ pieces) event rest f outcome h =
    pump_forwards pieces event rest (record f { to_transport = f.to_transport ++ bytes }) outcome h
    ∙ rw append_assoc refl
pump_forwards (from_transport bytes ∷ pieces) event rest f outcome h =
    pump_forwards pieces event rest (record f { to_client = f.to_client ++ bytes }) outcome h
    ∙ rw append_assoc refl
