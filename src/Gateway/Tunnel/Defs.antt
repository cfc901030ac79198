-- ===== src/Gateway/Tunnel/Defs.antt =====
-- src/wss_gateway/mod.rs: the two tasks of `spawn_bridge_tasks` on the client, and the two halves of
-- `server_proxy_loop` on the server. What happens to a task is its argument, a list of events in
-- their order; a task that has no further event still waits.
use Prim.Native.String.{String}
use newghost.Prelude.{ℕ, Bool, true, false, Option, none, some, List, [], ◌∷◌, ◌++◌}
use newghost.Prelude.Outcome.{Outcome, ok, err}
use newghost.Gateway.WebSocket.{
  Message, text, binary, ping, pong, close, frame, said, WssError, upgrade_failed,
  target_connect_failed,
}

-- A read of a byte stream; a chunk comes with whether the message with it could be sent.
pub data StreamRead : Type 0 where
  stop_requested at_end : StreamRead
  read_failed : String → StreamRead
  chunk : List ℕ → Option String → StreamRead

-- A task that reads a byte stream and sends messages; `result` is `none` while it waits.
pub record Sending : Type 0 where
  pub messages : List Message
  pub result : Option (Outcome WssError (Unit {0}))

abbrev also_sends : Message → Sending → Sending
also_sends message end = record end { messages = message ∷ end.messages }

abbrev ends_with : List Message → Outcome WssError (Unit {0}) → Sending
ends_with messages result = record { messages = messages; result = some result }

-- The first task: whatever ends it, it reports nothing. The failure of a close is ignored.
unfoldable pub bridge_to_websocket : List StreamRead → Sending
bridge_to_websocket [] = record { messages = []; result = none }
bridge_to_websocket (stop_requested ∷ reads) = ends_with (close ∷ []) (ok tt)
bridge_to_websocket (at_end ∷ reads) = ends_with (close ∷ []) (ok tt)
bridge_to_websocket (read_failed e ∷ reads) = ends_with [] (ok tt)
bridge_to_websocket (chunk bytes (some e) ∷ reads) = ends_with [] (ok tt)
bridge_to_websocket (chunk bytes none ∷ reads) =
    also_sends (binary bytes) (bridge_to_websocket reads)

-- `target_to_websocket`; nothing asks it to stop, so that event is passed over.
unfoldable pub target_to_websocket : List StreamRead → Sending
target_to_websocket [] = record { messages = []; result = none }
target_to_websocket (stop_requested ∷ reads) = target_to_websocket reads
target_to_websocket (at_end ∷ reads) = ends_with (close ∷ []) (ok tt)
target_to_websocket (read_failed e ∷ reads) = ends_with [] (err (target_connect_failed (said e)))
target_to_websocket (chunk bytes (some e) ∷ reads) = ends_with [] (err (upgrade_failed (said e)))
target_to_websocket (chunk bytes none ∷ reads) =
    also_sends (binary bytes) (target_to_websocket reads)

-- What the WebSocket's stream yields; a message comes with whether its bytes could be written.
pub data FrameRead : Type 0 where
  shutdown_requested end_of_frames : FrameRead
  frame_failed : String → FrameRead
  received : Message → Option String → FrameRead

-- A task that receives messages and writes a byte stream, which it may shut down.
pub record Writing : Type 0 where
  pub written : List ℕ
  pub shut : Bool
  pub result : Option (Outcome WssError (Unit {0}))

abbrev also_writes : List ℕ → Writing → Writing
also_writes bytes end = record end { written = bytes ++ end.written }

abbrev stops : Bool → Outcome WssError (Unit {0}) → Writing
stops shut result = record { written = []; shut = shut; result = some result }

-- The second task.
unfoldable pub websocket_to_bridge : List FrameRead → Writing
websocket_to_bridge [] = record { written = []; shut = false; result = none }
websocket_to_bridge (shutdown_requested ∷ frames) = stops true (ok tt)
websocket_to_bridge (end_of_frames ∷ frames) = stops true (ok tt)
websocket_to_bridge (frame_failed e ∷ frames) = stops true (ok tt)
websocket_to_bridge (received (binary bytes) (some e) ∷ frames) = stops false (ok tt)
websocket_to_bridge (received (text bytes) (some e) ∷ frames) = stops false (ok tt)
websocket_to_bridge (received (binary bytes) none ∷ frames) =
    also_writes bytes (websocket_to_bridge frames)
websocket_to_bridge (received (text bytes) none ∷ frames) =
    also_writes bytes (websocket_to_bridge frames)
websocket_to_bridge (received close e ∷ frames) = stops true (ok tt)
websocket_to_bridge (received ping e ∷ frames) = websocket_to_bridge frames
websocket_to_bridge (received pong e ∷ frames) = websocket_to_bridge frames
websocket_to_bridge (received frame e ∷ frames) = websocket_to_bridge frames

-- `websocket_to_target`; nothing asks it to stop, so that event is passed over. The end of the
-- frames ends the loop without a shutdown of the target.
unfoldable pub websocket_to_target : List FrameRead → Writing
websocket_to_target [] = record { written = []; shut = false; result = none }
websocket_to_target (shutdown_requested ∷ frames) = websocket_to_target frames
websocket_to_target (end_of_frames ∷ frames) = stops false (ok tt)
websocket_to_target (frame_failed e ∷ frames) = stops false (err (upgrade_failed (said e)))
websocket_to_target (received (binary bytes) (some e) ∷ frames) =
    stops false (err (target_connect_failed (said e)))
websocket_to_target (received (text bytes) (some e) ∷ frames) =
    stops false (err (target_connect_failed (said e)))
websocket_to_target (received (binary bytes) none ∷ frames) =
    also_writes bytes (websocket_to_target frames)
websocket_to_target (received (text bytes) none ∷ frames) =
    also_writes bytes (websocket_to_target frames)
websocket_to_target (received close e ∷ frames) = stops true (ok tt)
websocket_to_target (received ping e ∷ frames) = websocket_to_target frames
websocket_to_target (received pong e ∷ frames) = websocket_to_target frames
websocket_to_target (received frame e ∷ frames) = websocket_to_target frames
