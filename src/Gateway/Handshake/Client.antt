-- ===== src/Gateway/Handshake/Client.antt =====
-- The handshake of src/wss_gateway/mod.rs between a client and a server that share a token.
use Prim.Native.String.{String}
use newghost.Prelude.{
  ℕ, ◌^◌, ◌<◌, ◌≡◌, refl, ap, ◌∙◌, Bool, true, false, List, [], ◌∷◌, ◌++◌, ◌⊎◌, inl,
}
use newghost.Prelude.Outcome.{ok}
use newghost.Prelude.Program.{done}
use newghost.Net.Blank.{is_blank}
use newghost.Net.Socket.{contains}
use newghost.Auth.{Lossy, AuthPolicy, AuthDecision, allow, reject, validate_handshake}
use newghost.Auth.Laws.{allows}
use newghost.Gateway.WebSocket.{Message, text, binary, WebSocket, receive-inl, send-writable}
use newghost.Gateway.Requests.{connect_request, datagram_open_request, parse_target_request}
use newghost.Gateway.Requests.RoundTrip.{
  parse_target_request-connect_request, parse_datagram_open_request-datagram_open_request,
}
use newghost.Gateway.Handshake.Defs.{
  ok_word, connected_word, ready_word, Point, authenticate_websocket, open_stream,
  open_datagram_path, Route, datagram_loop, proxy_loop, route_of, decide, handle_accepted,
}

-- No `select!` is cancelled.
abbrev pub never : Point → Bool
never point = false

authenticate-acked :
    (token : List ℕ) (ws : WebSocket) (rest : List (Message ⊎ String))
    → ws.incoming ≡ inl (text ok_word) ∷ rest
    → ws.writable ≡ true
    → authenticate_websocket never token ws
      ≡ done tt (record ws { incoming = rest; sent = ws.sent ++ binary token ∷ [] })
unfolding authenticate_websocket
authenticate-acked token ws rest acked writes =
    let ws' = record ws { sent = ws.sent ++ binary token ∷ [] } in
    rw (send-writable (binary token) _ ws writes, receive-inl _ _ ws' (text ok_word) rest acked)
      refl

open_stream-acked :
    (token host : List ℕ) (port : ℕ) (ws : WebSocket) (rest : List (Message ⊎ String))
    → ws.incoming ≡ inl (text ok_word) ∷ inl (text connected_word) ∷ rest
    → ws.writable ≡ true
    → open_stream never token host port ws
      ≡ done tt (record ws {
        incoming = rest;
        sent = (ws.sent ++ binary token ∷ []) ++ connect_request host port ∷ [];
      })
unfolding open_stream
open_stream-acked token host port ws rest acked writes =
    let after = inl (text connected_word) ∷ rest in
    let ws1 = record ws { incoming = after; sent = ws.sent ++ binary token ∷ [] } in
    rw
      (
        authenticate-acked token ws after acked writes,
        send-writable (connect_request host port) _ ws1 writes,
      )
      refl

decide-allowed :
    (decision : AuthDecision) (ws : WebSocket) (request : Message) (rest : List (Message ⊎ String))
    → allows decision ≡ true
    → ws.incoming ≡ inl request ∷ rest
    → ws.writable ≡ true
    → decide decision ws
      ≡ done (route_of request) (record ws { incoming = rest; sent = ws.sent ++ text ok_word ∷ [] })
decide-allowed (allow identity) ws request rest allowed asked writes =
    let ws' = record ws { sent = ws.sent ++ text ok_word ∷ [] } in
    rw (send-writable (text ok_word) _ ws writes, receive-inl _ _ ws' request rest asked) refl
decide-allowed (reject rejection) ws request rest allowed asked writes = cc

handle_accepted-asked :
    (lossy : Lossy) (policy : AuthPolicy) (label token : List ℕ) (request : Message)
    (rest : List (Message ⊎ String)) (ws : WebSocket)
    → allows (validate_handshake lossy policy (record { credentials = token; peer_label = label }))
      ≡ true
    → ws.incoming ≡ inl (binary token) ∷ inl request ∷ rest
    → ws.writable ≡ true
    → handle_accepted lossy policy label ws
      ≡ done (route_of request) (record ws { incoming = rest; sent = ws.sent ++ text ok_word ∷ [] })
unfolding handle_accepted
handle_accepted-asked lossy policy label token request rest ws allowed asked writes =
    let after = inl request ∷ rest in
    rw (receive-inl _ _ ws (binary token) after asked)
      (decide-allowed _ (record ws { incoming = after }) request rest allowed refl writes)

open_datagram_path-acked :
    (token : List ℕ) (id : ℕ) (ws : WebSocket) (rest : List (Message ⊎ String))
    → ws.incoming ≡ inl (text ok_word) ∷ inl (text ready_word) ∷ rest
    → ws.writable ≡ true
    → open_datagram_path never token id ws
      ≡ done tt (record ws {
        incoming = rest;
        sent = (ws.sent ++ binary token ∷ []) ++ datagram_open_request id ∷ [];
      })
unfolding open_datagram_path
open_datagram_path-acked token id ws rest acked writes =
    let after = inl (text ready_word) ∷ rest in
    let ws1 = record ws { incoming = after; sent = ws.sent ++ binary token ∷ [] } in
    rw
      (
        authenticate-acked token ws after acked writes,
        send-writable (datagram_open_request id) _ ws1 writes,
      )
      refl

-- A client that is not cancelled sends its token and its CONNECT, and has its stream once it was
-- answered `ok` and `connected`. The server that receives exactly those two messages, where its
-- policy allows the token for the client's label, answers `ok` and goes on to the proxy loop with
-- the CONNECT, which it parses as the host and the port that the client asked for. The host is not
-- blank and has no space, and both sides take the messages.
pub open_stream-handle_accepted :
    (lossy : Lossy) (policy : AuthPolicy) (label token host : List ℕ) (port : ℕ)
    (client server : WebSocket) (rest rest' : List (Message ⊎ String))
    → allows (validate_handshake lossy policy (record { credentials = token; peer_label = label }))
      ≡ true
    → contains 32 host ≡ false
    → is_blank host ≡ false
    → port < 2 ^ 16
    → client.writable ≡ true
    → server.writable ≡ true
    → client.incoming ≡ inl (text ok_word) ∷ inl (text connected_word) ∷ rest
    → server.incoming ≡ inl (binary token) ∷ inl (connect_request host port) ∷ rest'
    → (open_stream never token host port client
        ≡ done tt (record client {
          incoming = rest;
          sent = (client.sent ++ binary token ∷ []) ++ connect_request host port ∷ [];
        }))
      × (handle_accepted lossy policy label server
          ≡ done
              (proxy_loop (connect_request host port))
              (record server { incoming = rest'; sent = server.sent ++ text ok_word ∷ [] }))
      × (parse_target_request (connect_request host port) ≡ ok (host, port))
open_stream-handle_accepted lossy policy label token host port client server rest rest' allowed
      whole seen fits writes writes' acked asked =
    let (parsed, other) = parse_target_request-connect_request host port whole seen fits in
    let route : route_of (connect_request host port) ≡ proxy_loop (connect_request host port) =
      rw (other, route_of) refl in
    let left = record server { incoming = rest'; sent = server.sent ++ text ok_word ∷ [] } in
    let accepted =
      handle_accepted-asked lossy policy label token (connect_request host port) rest' server
        allowed asked writes' in
    (
      open_stream-acked token host port client rest acked writes,
      accepted ∙ ap (λ (r : Route). done r left) route,
      parsed,
    )

-- A client that is not cancelled sends its token and the request for the datagram path of an
-- association, and has the path once it was answered `ok` and `datagram-ready`. The server that
-- receives exactly those two messages, where its policy allows the token for the client's label,
-- answers `ok` and goes on to the datagram loop of the same association.
pub open_datagram_path-handle_accepted :
    (lossy : Lossy) (policy : AuthPolicy) (label token : List ℕ) (id : ℕ)
    (client server : WebSocket) (rest rest' : List (Message ⊎ String))
    → allows (validate_handshake lossy policy (record { credentials = token; peer_label = label }))
      ≡ true
    → id < 2 ^ 64
    → client.writable ≡ true
    → server.writable ≡ true
    → client.incoming ≡ inl (text ok_word) ∷ inl (text ready_word) ∷ rest
    → server.incoming ≡ inl (binary token) ∷ inl (datagram_open_request id) ∷ rest'
    → (open_datagram_path never token id client
        ≡ done tt (record client {
          incoming = rest;
          sent = (client.sent ++ binary token ∷ []) ++ datagram_open_request id ∷ [];
        }))
      × (handle_accepted lossy policy label server
          ≡ done
              (datagram_loop id)
              (record server { incoming = rest'; sent = server.sent ++ text ok_word ∷ [] }))
open_datagram_path-handle_accepted lossy policy label token id client server rest rest' allowed fits
      writes writes' acked asked =
    let parsed = parse_datagram_open_request-datagram_open_request id fits in
    let route : route_of (datagram_open_request id) ≡ datagram_loop id =
      rw (parsed, route_of) refl in
    let left = record server { incoming = rest'; sent = server.sent ++ text ok_word ∷ [] } in
    let accepted =
      handle_accepted-asked lossy policy label token (datagram_open_request id) rest' server allowed
        asked writes' in
    (
      open_datagram_path-acked token id client rest acked writes,
      accepted ∙ ap (λ (r : Route). done r left) route,
    )
