-- ===== src/Examples/Tunnels.antt =====
-- The theorems on src/auth/, src/wss_gateway/mod.rs and src/proxy_bridge/udp_relay.rs at concrete
-- inputs.
use newghost.Gateway.WebSocket.{Message, text, binary, WebSocket}
use newghost.Gateway.Tunnel.Lifecycle.{
  calling_notified, Lifecycle, returned_ok, returned_timeout, shutdown_starts, Steps, stays, goes,
  times_out, shutdown_misses_end, missed,
}
use newghost.Prelude.Outcome.{ok}
use Prim.Native.String.{String}
use newghost.Prelude.{
  ℕ, ◌≡◌, ◌≢◌, ◌↔◌, refl, arith, true, false, List, [], ◌∷◌, ◌++◌, ◌⊎◌, inl, if◌then◌else◌,
}
use newghost.Prelude.Program.{done}
use newghost.Net.Utf8.{is_utf8}
use newghost.Net.Blank.{is_blank}
use newghost.Auth.{bytes_eq, has_replacement, Lossy, AuthPolicy, check_token, validate_handshake}
use newghost.Auth.Laws.{allows, validate_handshake_iff}
use newghost.Gateway.Requests.{connect_request, parse_target_request}
use newghost.Gateway.Handshake.{ok_word, connected_word, proxy_loop, open_stream, handle_accepted}
use newghost.Gateway.Handshake.Server.{Carries, handle_accepted-allows}
use newghost.Gateway.Handshake.Client.{never, open_stream-handle_accepted}
use newghost.Gateway.Tunnel.{
  bridge_to_websocket, target_to_websocket, websocket_to_bridge, websocket_to_target,
}
use newghost.Gateway.Tunnel.Delivery.{chunks, carried, delivered, tunnel_delivers}

-- A reading that marks a text that is not UTF-8 with one replacement character.
abbrev reading : List ℕ → List ℕ
reading bytes = if is_utf8 bytes then bytes else 0xef ∷ 0xbf ∷ 0xbd ∷ []

reading-keeps : (bytes : List ℕ) → is_utf8 bytes ≡ true → reading bytes ≡ bytes
reading-keeps bytes h = rw h refl

reading-marks : (bytes : List ℕ) → is_utf8 bytes ≡ false → has_replacement (reading bytes) ≡ true
reading-marks bytes h = rw h refl

abbrev lossy : Lossy
lossy = record {
  from_utf8_lossy = reading;
  lossy_keeps = reading-keeps;
  lossy_marks = reading-marks;
}

abbrev token : List ℕ
token = 115 ∷ 101 ∷ 99 ∷ 114 ∷ 101 ∷ 116 ∷ []

abbrev label : List ℕ
label = 112 ∷ []

abbrev policy : AuthPolicy
policy = record { expected_token = token }

validate_handshake_iff_example :
    (allows (validate_handshake lossy policy (record { credentials = token; peer_label = label }))
      ≡ true)
    ↔ ((is_blank label ≡ false) × (bytes_eq token [] ≡ false) × (token ≡ token))
unfolding is_utf8
validate_handshake_iff_example =
    validate_handshake_iff lossy policy (record { credentials = token; peer_label = label }) refl
      refl

-- The host `ab`.
abbrev host : List ℕ
host = 97 ∷ 98 ∷ []

abbrev client_side : WebSocket
client_side = record {
  incoming = inl (text ok_word) ∷ inl (text connected_word) ∷ [];
  sent = [];
  writable = true;
}

abbrev server_side : WebSocket
server_side = record {
  incoming = inl (binary token) ∷ inl (connect_request host 80) ∷ [];
  sent = [];
  writable = true;
}

abbrev admitted : WebSocket
admitted = record { incoming = []; sent = text ok_word ∷ []; writable = true }

allowed :
    allows (validate_handshake lossy policy (record { credentials = token; peer_label = label }))
    ≡ true
unfolding validate_handshake check_token is_blank is_utf8
allowed = refl

open_stream-handle_accepted_example :
    (open_stream never token host 80 client_side
      ≡ done tt (record client_side {
        incoming = [];
        sent = ([] ++ binary token ∷ []) ++ connect_request host 80 ∷ [];
      }))
    × (handle_accepted lossy policy label server_side
        ≡ done
            (proxy_loop (connect_request host 80))
            (record server_side { incoming = []; sent = [] ++ text ok_word ∷ [] }))
    × (parse_target_request (connect_request host 80) ≡ ok (host, 80))
unfolding is_blank
open_stream-handle_accepted_example =
    open_stream-handle_accepted lossy policy label token host 80 client_side server_side [] []
      allowed refl refl (omega arith) refl refl refl refl

accepted :
    handle_accepted lossy policy label server_side
    ≡ done (proxy_loop (connect_request host 80)) admitted
unfolding is_blank
accepted =
    (open_stream-handle_accepted lossy policy label token host 80 client_side server_side [] []
      allowed refl refl (omega arith) refl refl refl refl).1

handle_accepted-allows_example :
    (credentials : List ℕ) × (message : Message) × (rest : List (Message ⊎ String))
    × (server_side.incoming ≡ inl message ∷ rest)
    × Carries credentials message
    × (allows (
          validate_handshake lossy policy
            (record { credentials = credentials; peer_label = label }))
        ≡ true)
    × (admitted.sent ≡ server_side.sent ++ text ok_word ∷ [])
handle_accepted-allows_example =
    handle_accepted-allows lossy policy label server_side admitted
      (proxy_loop (connect_request host 80)) accepted

tunnel_delivers_example :
    (websocket_to_target
        (carried (bridge_to_websocket (chunks ((1 ∷ 2 ∷ []) ∷ (3 ∷ []) ∷ []))).messages)
      ≡ delivered (1 ∷ 2 ∷ 3 ∷ []))
    × (websocket_to_bridge (carried (target_to_websocket (chunks ((4 ∷ []) ∷ []))).messages)
        ≡ delivered (4 ∷ []))
tunnel_delivers_example = tunnel_delivers ((1 ∷ 2 ∷ []) ∷ (3 ∷ []) ∷ []) ((4 ∷ []) ∷ [])

-- Both tasks end before the first load.
abbrev ended_early : Lifecycle
ended_early = record { active_tasks = 0; waiter = returned_ok }

abbrev gave_up : Lifecycle
gave_up = record { active_tasks = 0; waiter = returned_timeout }

-- Both tasks run, and the waiter has loaded their number.
abbrev between : Lifecycle
between = record { active_tasks = 2; waiter = calling_notified }

shutdown_misses_end_example :
    Steps shutdown_starts missed
    × Steps between missed
    × (gave_up.active_tasks ≡ 0)
    × (returned_timeout ≢ returned_ok)
shutdown_misses_end_example =
    shutdown_misses_end between gave_up refl (goes (times_out missed refl) (stays gave_up))
