-- ===== src/Gateway/Handshake/Defs.antt =====
-- src/wss_gateway/mod.rs: `authenticate_websocket`, `open_datagram_path` and `open_stream` of the
-- client, and `handle_accepted` of the server up to the loop that it chooses. The TCP, TLS and
-- upgrade steps in front of them are not modelled. Where the client waits, the argument
-- `cancelled_at` says whether the cancellation comes first.
use newghost.Prelude.{ℕ, Bool, false, none, some, List, [], ◌∷◌, ◌++◌, if◌then◌else◌}
use newghost.Prelude.Program.{Program, failed, ◌>>=◌, ◌>>◌, returns, fails, fail_if}
use newghost.Auth.{
  bytes_eq, Lossy, AuthPolicy, AuthDecision, allow, reject, RedactedDetail, peer_label_missing,
  credential_missing, credential, validate_handshake,
}
use newghost.Gateway.WebSocket.{
  Message, text, binary, close, Detail, said, quoted, shown, WssError, cancelled, upgrade_failed,
  handshake_failed, auth_rejected, target_connect_failed, invalid_target_request,
  datagram_path_failed, WebSocket, send, receive,
}
use newghost.Gateway.Requests.{connect_request, datagram_open_request, parse_datagram_open_request}

-- `ok`
abbrev pub ok_word : List ℕ
ok_word = 111 ∷ 107 ∷ []

-- `connected`
abbrev pub connected_word : List ℕ
connected_word = 99 ∷ 111 ∷ 110 ∷ 110 ∷ 101 ∷ 99 ∷ 116 ∷ 101 ∷ 100 ∷ []

-- `datagram-ready`
abbrev pub ready_word : List ℕ
ready_word = 100 ∷ 97 ∷ 116 ∷ 97 ∷ 103 ∷ 114 ∷ 97 ∷ 109 ∷ 45 ∷ 114 ∷ 101 ∷ 97 ∷ 100 ∷ 121 ∷ []

-- The points where the client's `select!` watches the cancellation.
pub data Point : Type 0 where
  sending_token awaiting_ack opening_path awaiting_path awaiting_target : Point

abbrev pub OnSocket : Type 0 → Type 0
OnSocket A = Program WebSocket WssError A

abbrev pub says : List ℕ → Message → Bool
says word (text bytes) = bytes_eq bytes word
says word (binary bytes) = bytes_eq bytes word
says word _ = false

unfoldable pub authenticate_websocket : (Point → Bool) → List ℕ → OnSocket (Unit {0})
unfolding send receive
authenticate_websocket cancelled_at auth_token = do
  fail_if (cancelled_at sending_token) cancelled
  send (binary auth_token) (λ e. handshake_failed (said e))
  fail_if (cancelled_at awaiting_ack) cancelled
  auth_ack ← receive (handshake_failed (said "missing auth ack")) (λ e. handshake_failed (said e))
  if says ok_word auth_ack then returns tt else fails (auth_rejected (shown auth_ack))

unfoldable pub open_datagram_path : (Point → Bool) → List ℕ → ℕ → OnSocket (Unit {0})
unfolding authenticate_websocket send receive
open_datagram_path cancelled_at auth_token association_id = do
  authenticate_websocket cancelled_at auth_token
  fail_if (cancelled_at opening_path) cancelled
  send (datagram_open_request association_id) (λ e. datagram_path_failed (said e))
  fail_if (cancelled_at awaiting_path) cancelled
  path_ack ←
      receive (datagram_path_failed (said "missing datagram ack"))
        (λ e. datagram_path_failed (said e))
  if says ready_word path_ack then returns tt else fails (datagram_path_failed (shown path_ack))

-- An answer other than `connected` is the server's reason; a binary one is shown as its bytes,
-- which the source converts lossily.
abbrev pub refusal : Message → WssError
refusal (text reason) = target_connect_failed (quoted reason)
refusal (binary reason) = target_connect_failed (quoted reason)
refusal _ = handshake_failed (said "unexpected target ack message type")

unfoldable pub open_stream : (Point → Bool) → List ℕ → List ℕ → ℕ → OnSocket (Unit {0})
unfolding authenticate_websocket send receive
open_stream cancelled_at auth_token target_host target_port = do
  authenticate_websocket cancelled_at auth_token
  send (connect_request target_host target_port) (λ e. handshake_failed (said e))
  fail_if (cancelled_at awaiting_target) cancelled
  target_ack ←
      receive (handshake_failed (said "missing target ack")) (λ e. handshake_failed (said e))
  if says connected_word target_ack then returns tt else fails (refusal target_ack)

-- The loop that the server runs for a client.
pub data Route : Type 0 where
  datagram_loop : ℕ → Route
  proxy_loop : Message → Route

abbrev pub credentials_of : Message → OnSocket (List ℕ)
credentials_of (text bytes) = returns bytes
credentials_of (binary bytes) = returns bytes
credentials_of _ = fails (handshake_failed (said "unsupported auth message type"))

abbrev pub route_of : Message → Route
route_of target_message = elim (parse_datagram_open_request target_message) [
  | some association_id ↦ datagram_loop association_id
  | none ↦ proxy_loop target_message
]

abbrev pub admit : OnSocket Route
admit = do
  send (text ok_word) (λ e. handshake_failed (said e))
  target_message ←
      receive (invalid_target_request (said "missing target request"))
        (λ e. upgrade_failed (said e))
  returns (route_of target_message)

-- What `format!` makes of a rejection.
abbrev pub redacted : RedactedDetail → Detail
redacted peer_label_missing = said "peer label missing"
redacted credential_missing = said "credential missing"
redacted (credential token) = quoted token

-- `websocket.close` sends a close frame; its failure is ignored.
abbrev pub close_websocket : WssError → OnSocket Route
close_websocket why ws =
    if ws.writable then failed why (record ws { sent = ws.sent ++ close ∷ [] }) else failed why ws

abbrev pub decide : AuthDecision → OnSocket Route
decide (allow identity) = admit
decide (reject rejection) = close_websocket (auth_rejected (redacted rejection.redacted_detail))

unfoldable pub handle_accepted : Lossy → AuthPolicy → List ℕ → OnSocket Route
unfolding send receive validate_handshake
handle_accepted lossy auth_policy peer_label = do
  auth_message ←
      receive (handshake_failed (said "missing auth message")) (λ e. handshake_failed (said e))
  credentials ← credentials_of auth_message
  decide (
      validate_handshake lossy auth_policy
        (record { credentials = credentials; peer_label = peer_label }))
