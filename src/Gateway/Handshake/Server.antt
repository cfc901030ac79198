-- ===== src/Gateway/Handshake/Server.antt =====
-- Whom the server of src/wss_gateway/mod.rs serves.
use Prim.Native.String.{String}
use newghost.Prelude.{ℕ, ◌≡◌, refl, arith, true, List, [], ◌∷◌, ◌++◌, ◌⊎◌, inl, inr, ap, ◌∙◌}
use newghost.Prelude.Program.{done, done-split}
use newghost.Auth.{Lossy, AuthPolicy, AuthDecision, allow, reject, validate_handshake}
use newghost.Auth.Laws.{allows}
use newghost.Gateway.WebSocket.{
  Message, text, binary, WebSocket, send, receive, send-done, receive-done,
}
use newghost.Gateway.Handshake.Defs.{ok_word, credentials_of, Route, decide, admit, handle_accepted}

abbrev pub Carries : List ℕ → Message → Type 0
Carries credentials message = (message ≡ text credentials) ⊎ (message ≡ binary credentials)

admit-done :
    (ws end : WebSocket) (route : Route)
    → admit ws ≡ done route end
    → end.sent ≡ ws.sent ++ text ok_word ∷ []
admit-done ws end route reached =
    let (_, ws1, sent, h) = done-split (send (text ok_word) _ ws) _ reached in
    let e1 = send-done (text ok_word) _ ws ws1 sent in
    let (message, ws2, got, h2) = done-split (receive _ _ ws1) _ h in
    let (rest, _, e2) = receive-done _ _ ws1 ws2 message got in
    let last : end ≡ ws2 = cc h2 in
    ap (λ (s : WebSocket). s.sent) last
    ∙ ap (λ (s : WebSocket). s.sent) e2
    ∙ ap (λ (s : WebSocket). s.sent) e1

decide-done :
    (decision : AuthDecision) (ws end : WebSocket) (route : Route)
    → decide decision ws ≡ done route end
    → (allows decision ≡ true) × (end.sent ≡ ws.sent ++ text ok_word ∷ [])
decide-done (allow identity) ws end route reached = (refl, admit-done ws end route reached)
decide-done (reject rejection) ws end route reached = ground (arith, reached)

credentials-carried :
    (message : Message) (credentials : List ℕ) (ws end : WebSocket)
    → credentials_of message ws ≡ done credentials end
    → Carries credentials message × (end ≡ ws)
credentials-carried (text bytes) credentials ws end got = (inl (ap text (cc got)), cc got)
credentials-carried (binary bytes) credentials ws end got = (inr (ap binary (cc got)), cc got)
credentials-carried _ credentials ws end got = cc

-- A client that the server goes on to serve, by whichever loop, has sent as its first message, text
-- or binary, credentials that the policy allows for the client's label; and it has been sent `ok`
-- and nothing else.
pub handle_accepted-allows :
    (lossy : Lossy) (policy : AuthPolicy) (label : List ℕ) (ws end : WebSocket) (route : Route)
    → handle_accepted lossy policy label ws ≡ done route end
    → (credentials : List ℕ) × (message : Message) × (rest : List (Message ⊎ String)) × (ws.incoming
        ≡ inl message ∷ rest)
      × Carries credentials message
      × (allows (
            validate_handshake lossy policy
              (record { credentials = credentials; peer_label = label }))
          ≡ true)
      × (end.sent ≡ ws.sent ++ text ok_word ∷ [])
unfolding handle_accepted
handle_accepted-allows lossy policy label ws end route reached =
    let (message, ws1, got, h) = done-split (receive _ _ ws) _ reached in
    let (rest, first, e1) = receive-done _ _ ws ws1 message got in
    let (credentials, ws2, held, h2) = done-split (credentials_of message ws1) _ h in
    let (carried, e2) = credentials-carried message credentials ws1 ws2 held in
    let (allowed, says_ok) = decide-done _ ws2 end route h2 in
    let sent = ap (λ (s : WebSocket). s.sent ++ text ok_word ∷ []) (e2 ∙ e1) in
    (credentials, message, rest, first, carried, allowed, says_ok ∙ sent)
