-- ===== src/Gateway/Tunnel/Delivery.antt =====
-- The two ends of the tunnel of src/wss_gateway/mod.rs, one behind the other.
use newghost.Prelude.{ℕ, ◌≡◌, refl, ap, true, none, some, List, [], ◌∷◌, ◌++◌}
use newghost.Prelude.Outcome.{ok}
use newghost.Obs.Redact.{concat}
use newghost.Gateway.WebSocket.{Message}
use newghost.Gateway.Tunnel.Defs.{
  StreamRead, at_end, chunk, bridge_to_websocket, target_to_websocket, FrameRead, received,
  end_of_frames, Writing, websocket_to_bridge, websocket_to_target,
}

-- The chunks of a stream that is read to its end, each of which is sent.
abbrev pub chunks : List (List ℕ) → List StreamRead
chunks [] = at_end ∷ []
chunks (bytes ∷ more) = chunk bytes none ∷ chunks more

-- A connection that loses no message, in front of a stream that takes every write.
abbrev pub carried : List Message → List FrameRead
carried [] = end_of_frames ∷ []
carried (message ∷ messages) = received message none ∷ carried messages

abbrev pub delivered : List ℕ → Writing
delivered bytes = record { written = bytes; shut = true; result = some (ok tt) }

websocket_to_target-bridge_to_websocket :
    (parts : List (List ℕ))
    → websocket_to_target (carried (bridge_to_websocket (chunks parts)).messages)
      ≡ delivered (concat parts)
unfolding websocket_to_target bridge_to_websocket
websocket_to_target-bridge_to_websocket [] = refl
websocket_to_target-bridge_to_websocket (bytes ∷ parts) =
    ap (λ (end : Writing). record end { written = bytes ++ end.written })
      (websocket_to_target-bridge_to_websocket parts)

websocket_to_bridge-target_to_websocket :
    (parts : List (List ℕ))
    → websocket_to_bridge (carried (target_to_websocket (chunks parts)).messages)
      ≡ delivered (concat parts)
unfolding websocket_to_bridge target_to_websocket
websocket_to_bridge-target_to_websocket [] = refl
websocket_to_bridge-target_to_websocket (bytes ∷ parts) =
    ap (λ (end : Writing). record end { written = bytes ++ end.written })
      (websocket_to_bridge-target_to_websocket parts)

-- Over a connection that loses nothing, what the client reads from its local stream until the
-- stream ends is what the server writes to the target, byte for byte and in order, and then the
-- server shuts the target's stream down; and what the server reads from the target until it ends is
-- what the client writes to the local stream, which it then shuts down.
pub tunnel_delivers :
    (up down : List (List ℕ))
    → (websocket_to_target (carried (bridge_to_websocket (chunks up)).messages)
        ≡ delivered (concat up))
      × (websocket_to_bridge (carried (target_to_websocket (chunks down)).messages)
          ≡ delivered (concat down))
tunnel_delivers up down =
    (websocket_to_target-bridge_to_websocket up, websocket_to_bridge-target_to_websocket down)
