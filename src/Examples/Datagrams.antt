-- ===== src/Examples/Datagrams.antt =====
-- The theorems on the datagrams of src/wss_gateway/mod.rs at concrete inputs.
use newghost.Datagram.Frame.{decode_datagram, decode_target, decode_v4, decode_relay}
use newghost.Gateway.Datagrams.{
  Exchange, Handler, answered, received, LoopEvent, serve_datagram, emit_datagram,
  server_datagram_loop,
}
use newghost.Gateway.WebSocket.{Message, binary}
use newghost.Prelude.Outcome.{ok}
use newghost.Prelude.{ℕ, ◌≡◌, refl, arith, false, none, some, List, [], ◌∷◌, inl, length, ◌<◌, ◌^◌}
use newghost.Net.{v4, SocketAddr}
use newghost.Net.Utf8.{is_utf8}
use newghost.Net.Hex.{hex}
use newghost.Datagram.Contract.{ip, DatagramEnvelope}
use newghost.Datagram.Frame.RoundTrip.{Fits}
use newghost.ProxyBridge.UdpRelay.{
  relay_inbound_datagram, UdpRelayRecord, Egress, relay_outbound_datagram, resolve_target,
}
use newghost.Gateway.Datagrams.RoundTrip.{emit_datagram-serve_datagram}

abbrev peer : SocketAddr
peer = record { ip = v4 10 0 0 1; port = 53 }

abbrev query : DatagramEnvelope
query = record {
  association_id = 9;
  relay_client_addr = record { ip = v4 127 0 0 1; port = 5_000 };
  target = ip peer;
  payload = 1 ∷ 2 ∷ [];
}

abbrev egress : Egress
egress = record {
  lookup_host = λ name port. inl [];
  bind = inl (record { ip = v4 0 0 0 0; port = 6_000 });
  send_to = λ bytes target. none;
}

abbrev relay : UdpRelayRecord
relay = record {
  association_id = 9;
  relay_local_addr = record { ip = v4 0 0 0 0; port = 6_000 };
  relay_client_addr = record { ip = v4 127 0 0 1; port = 5_000 };
  remote_peer = peer;
  outbound_target = ip peer;
  last_sent_payload_len = 2;
}

abbrev exchange : Exchange
exchange = record { egress = egress; answer = some (inl (7 ∷ [], peer)); returns = none }

query-Fits :
    (payload : List ℕ) → length payload < 2 ^ 32 → Fits (record query { payload = payload })
query-Fits payload short = record {
  id = omega arith;
  relay_ip = (omega arith, omega arith, omega arith, omega arith);
  relay_port = omega arith;
  names = omega arith;
  size = short;
}

abbrev takes : Handler
takes inbound = none

emit_datagram-serve_datagram_example :
    (request : Message) × (reply : Message) × (serve_datagram hex 9 request exchange []
      ≡ (ok (record { relay = relay; reply = some reply }), relay ∷ []))
    × (emit_datagram hex query none (some takes) (answered reply) false none
        ≡ ok (request, some (record query { payload = 7 ∷ [] })))
unfolding relay_outbound_datagram resolve_target
emit_datagram-serve_datagram_example =
    emit_datagram-serve_datagram hex query exchange relay (7 ∷ []) takes []
      (query-Fits (1 ∷ 2 ∷ []) (omega arith)) (query-Fits (7 ∷ []) (omega arith)) tt refl refl refl
      refl

abbrev query_frame : Message
query_frame = binary (
    1 ∷ 0 ∷ 0 ∷ 0 ∷ 0 ∷ 0 ∷ 0 ∷ 0 ∷ 9 ∷ 1 ∷ 10 ∷ 0 ∷ 0 ∷ 1 ∷ 0 ∷ 53 ∷ 0 ∷ 8 ∷ 55 ∷ 63 ∷ 48 ∷ 48 ∷ 48
    ∷ 48 ∷ 48 ∷ 49 ∷ 19 ∷ 136 ∷ 0 ∷ 0 ∷ 0 ∷ 2 ∷ 1 ∷ 2 ∷ [])

abbrev from_stranger : SocketAddr
from_stranger = record { ip = v4 10 0 0 2; port = 53 }

-- The frame of the datagram above, whose answer comes from a stranger, and before it a datagram of
-- the same path whose answer is late.
abbrev frames : List LoopEvent
frames =
    received query_frame (record exchange { answer = none })
    ∷ received query_frame (record exchange { answer = some (inl (7 ∷ [], from_stranger)) })
    ∷ []

-- Both went out, although the exchange of the second failed.
frames-relays : (server_datagram_loop hex none 9 frames).1.relays ≡ relay ∷ relay ∷ []
unfolding server_datagram_loop decode_datagram decode_target decode_v4 decode_relay is_utf8
    relay_inbound_datagram
frames-relays = refl
