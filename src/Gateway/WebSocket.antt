-- ===== src/Gateway/WebSocket.antt =====
-- The WebSocket of `tokio_tungstenite`, seen from its owner: the frames and errors that come in
-- before the stream ends, the messages that were sent, and whether the peer takes them; and the
-- errors of src/wss_gateway/mod.rs. A text is the list of its bytes.
use Prim.Native.String.{String}
use newghost.Prelude.{
  ℕ, Bool, true, false, Option, none, some, List, [], ◌∷◌, ◌++◌, ◌⊎◌, inl, inr, ◌≡◌, refl, ap,
  if◌then◌else◌,
}
use newghost.Datagram.Frame.{WssDatagramError}
use newghost.ProxyBridge.UdpRelay.{UdpRelayError}
use newghost.Prelude.Program.{Program, Run, done, failed}

pub data Message : Type 0 where
  text binary : List ℕ → Message
  ping pong close frame : Message

-- What the source formats into an error: words of its own or of another library, or a text.
pub data Detail : Type 0 where
  said : String → Detail
  quoted : List ℕ → Detail
  shown : Message → Detail
  mismatch : ℕ → ℕ → Detail
  framing : WssDatagramError → Detail
  relaying : UdpRelayError → Detail

pub data WssError : Type 0 where
  cancelled : WssError
  tcp_connect_failed upgrade_failed handshake_failed auth_rejected : Detail → WssError
  target_connect_failed invalid_target_request datagram_path_failed : Detail → WssError

pub record WebSocket : Type 0 where
  pub incoming : List (Message ⊎ String)
  pub sent : List Message
  pub writable : Bool

-- `send`
unfoldable pub send : Message → (String → WssError) → Program WebSocket WssError (Unit {0})
send message wrap ws =
    if ws.writable
    then done tt (record ws { sent = ws.sent ++ message ∷ [] })
    else failed (wrap "connection closed") ws

abbrev received : List (Message ⊎ String) → WebSocket → Option (Message ⊎ String) × WebSocket
received [] ws = (none, ws)
received (item ∷ rest) ws = (some item, record ws { incoming = rest })

-- `next`
unfoldable pub next : WebSocket → Option (Message ⊎ String) × WebSocket
next ws = received ws.incoming ws

abbrev expected :
    Option (Message ⊎ String) × WebSocket
    → WssError
    → (String → WssError)
    → Run WebSocket WssError Message
expected (none, ws) missing wrap = failed missing ws
expected (some (inl message), ws) missing wrap = done message ws
expected (some (inr e), ws) missing wrap = failed (wrap e) ws

-- `next().await.ok_or_else(…)?.map_err(…)?`
unfoldable pub receive : WssError → (String → WssError) → Program WebSocket WssError Message
unfolding next
receive missing wrap ws = expected (next ws) missing wrap

received-done :
    (items : List (Message ⊎ String)) (missing : WssError) (wrap : String → WssError)
    (ws ws' : WebSocket) (message : Message)
    → expected (received items ws) missing wrap ≡ done message ws'
    → (rest : List (Message ⊎ String)) × (items ≡ inl message ∷ rest)
      × (ws' ≡ record ws { incoming = rest })
received-done [] missing wrap ws ws' message got = cc
received-done (inl m ∷ rest) missing wrap ws ws' message got =
    (rest, ap (λ (m : Message). inl m ∷ rest) (cc got), cc got)
received-done (inr e ∷ rest) missing wrap ws ws' message got = cc

-- A message that was received is the first of the stream, and nothing else has changed.
pub receive-done :
    (missing : WssError) (wrap : String → WssError) (ws ws' : WebSocket) (message : Message)
    → receive missing wrap ws ≡ done message ws'
    → (rest : List (Message ⊎ String)) × (ws.incoming ≡ inl message ∷ rest)
      × (ws' ≡ record ws { incoming = rest })
unfolding receive next
receive-done missing wrap ws ws' message got =
    received-done ws.incoming missing wrap ws ws' message got

taken-done :
    (takes : Bool) (e : WssError) (ws after end : WebSocket) {u : Unit {0}}
    → (if takes then done tt after else failed e ws) ≡ done u end
    → end ≡ after
taken-done true e ws after end went = cc went
taken-done false e ws after end went = cc

pub send-done :
    (message : Message) (wrap : String → WssError) (ws end : WebSocket) {u : Unit {0}}
    → send message wrap ws ≡ done u end
    → end ≡ record ws { sent = ws.sent ++ message ∷ [] }
unfolding send
send-done message wrap ws end went =
    taken-done ws.writable (wrap "connection closed") ws
      (record ws { sent = ws.sent ++ message ∷ [] }) end went

pub receive-inl :
    (missing : WssError) (wrap : String → WssError) (ws : WebSocket) (message : Message)
    (rest : List (Message ⊎ String))
    → ws.incoming ≡ inl message ∷ rest
    → receive missing wrap ws ≡ done message (record ws { incoming = rest })
unfolding receive next
receive-inl missing wrap ws message rest e = rw e refl

pub send-writable :
    (message : Message) (wrap : String → WssError) (ws : WebSocket)
    → ws.writable ≡ true
    → send message wrap ws ≡ done tt (record ws { sent = ws.sent ++ message ∷ [] })
unfolding send
send-writable message wrap ws writes =
    ap
      (λ (takes : Bool).
        if takes
        then done tt (record ws { sent = ws.sent ++ message ∷ [] })
        else failed (wrap "connection closed") ws)
      writes
