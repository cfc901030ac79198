-- ===== src/Socks5/Connection/Queue.antt =====
-- The intent queue of src/socks5/mod.rs.
use newghost.Prelude.{
  ◌≡◌, ◌≤◌, ◌∙◌, arith, refl, sym, subst, true, ◌&&◌, [], ◌∷◌, ◌++◌, ◌⊎◌, inl, inr, length,
  length-append, ltb, Bool-cases, Option-cases,
}
use newghost.Prelude.Outcome.{ok}
use newghost.Prelude.Program.{done, Run-cases}
use newghost.Net.{SocketAddr}
use newghost.Net.Socket.{Socket, write_all, shutdown_stream}
use newghost.Socks5.Reply.{general_failure, send_reply}
use newghost.Socks5.Request.{
  ProxyIntent, connect, udp_associate, Ingress, Reads, parse_client_request,
}
use newghost.Socks5.Associate.{UdpRelaySocketRegistry, register, remove, handle_udp_associate}
use newghost.Socks5.Connection.Defs.{
  Proxy, Course, Handled, Inner, on_stream, offer, send_reply_and_close, with_registry,
  control_loop, end_associate, serve_associate, within_timeout, handle_connection_inner,
  handle_connection,
}

-- The client was taken, its intent last in the queue and nothing written; or it was told, the queue
-- as it was, the general failure written and the stream shut down.
abbrev pub Told : ProxyIntent → Ingress → Proxy → Proxy → Type 0
Told intent i p end =
    ((end.queue ≡ p.queue ++ intent ∷ []) × (end.ingress ≡ i))
    ⊎ ((end.queue ≡ p.queue)
        × (end.ingress.socket.output ≡ i.socket.output ++ send_reply general_failure)
        × (end.ingress.socket.is_shut ≡ true))

send_reply_and_close-done :
    (s s' : Socket) {u : Unit {0}}
    → send_reply_and_close general_failure s ≡ done u s'
    → (s'.output ≡ s.output ++ send_reply general_failure) × (s'.is_shut ≡ true)
unfolding send_reply_and_close write_all shutdown_stream
send_reply_and_close-done s s' reached = ground (arith, reached)

offer-Told :
    (intent : ProxyIntent) (p : Proxy)
    → (within_timeout (offer intent p)).0 ≡ ok tt
    → Told intent p.ingress p (within_timeout (offer intent p)).1
unfolding offer
offer-Told intent p = elim (Bool-cases (p.receiver_open && ltb (length p.queue) p.capacity)) [
  | inl room ↦ rw room (λ e. inl (refl, refl))
  | inr full ↦ elim (Run-cases (send_reply_and_close general_failure p.ingress.socket)) [
    | inl (u, s, e) ↦
        rw (full, on_stream, e)
          (λ r.
            let (output, shut) = send_reply_and_close-done p.ingress.socket s e in
            inr (refl, output, shut))
    | inr (why, s, e) ↦ rw (full, on_stream, e) (λ r. cc r)
  ]
]

-- A client whose CONNECT was parsed and whose handler returns without an error was taken or was
-- told: either its intent is the last of the queue and nothing was written behind the handshake, or
-- the queue stays, the client got the general failure and its stream was shut down.
pub handle_connection_connect :
    (c : Course) (p : Proxy) (intent : ProxyIntent) (i : Ingress)
    → parse_client_request p.ingress ≡ done (connect intent) i
    → (handle_connection c p).0 ≡ ok tt
    → Told intent i p (handle_connection c p).1
unfolding handle_connection offer
handle_connection_connect c p intent i parsed =
    let there : handle_connection c p ≡ within_timeout (offer intent (record p { ingress = i })) =
      rw (parsed, handle_connection_inner) refl in
    subst (λ (e : Handled × Proxy). e.0 ≡ ok tt → Told intent i p e.1) (sym there)
      (offer-Told intent (record p { ingress = i }))

with_registry-queue :
    (change : UdpRelaySocketRegistry → UdpRelaySocketRegistry) (p : Proxy)
    → ((with_registry change p).queue ≡ p.queue) × ((with_registry change p).capacity ≡ p.capacity)
with_registry-queue change p = elim (Option-cases p.relay_sockets) [
  | inl none_kept ↦ rw none_kept (refl, refl)
  | inr (sockets, kept) ↦ rw kept (refl, refl)
]

abbrev KeepsQueue : Proxy → Inner → Type 0
KeepsQueue p inner =
    ((within_timeout inner).1.queue ≡ p.queue) × ((within_timeout inner).1.capacity ≡ p.capacity)

on_stream-KeepsQueue : (reads : Reads (Unit {0})) (p : Proxy) → KeepsQueue p (on_stream reads p)
on_stream-KeepsQueue reads p = elim (Run-cases (reads p.ingress.socket)) [
  | inl (a, s, e) ↦ rw (on_stream, e) (refl, refl)
  | inr (why, s, e) ↦ rw (on_stream, e) (refl, refl)
]

-- `end` is within the capacity of `p`, and has its queue with one intent behind it at most.
abbrev pub IsBounded : Proxy → Proxy → Type 0
IsBounded p end =
    (length end.queue ≤ end.capacity)
    × (end.capacity ≡ p.capacity)
    × ((end.queue ≡ p.queue) ⊎ ((intent : ProxyIntent) × (end.queue ≡ p.queue ++ intent ∷ [])))

offer-IsBounded :
    (intent : ProxyIntent) (p : Proxy)
    → length p.queue ≤ p.capacity
    → IsBounded p (within_timeout (offer intent p)).1
unfolding offer
offer-IsBounded intent p bounded =
    elim (Bool-cases (p.receiver_open && ltb (length p.queue) p.capacity)) [
      | inl room ↦
          let fits : length (p.queue ++ intent ∷ []) ≤ p.capacity =
            ground (arith, room, length-append p.queue (intent ∷ [])) in
          rw room (fits, refl, inr (intent, refl))
      | inr full ↦
          let (queue, capacity) = on_stream-KeepsQueue (send_reply_and_close general_failure) p in
          rw full (rw (queue, capacity) bounded, capacity, inl queue)
    ]

end_associate-KeepsQueue :
    (c : Course) (addr : SocketAddr) (result : Handled) (p : Proxy)
    → KeepsQueue p (end_associate c addr result p)
unfolding end_associate
end_associate-KeepsQueue c addr result p = ground (arith, with_registry-queue (remove addr) p)

serve_associate-KeepsQueue : (c : Course) (p : Proxy) → KeepsQueue p (serve_associate c p)
unfolding serve_associate
serve_associate-KeepsQueue c p = elim (Run-cases (handle_udp_associate c.os p.ingress.socket)) [
  | inl (association, s, e) ↦
      let p' : Proxy = record p { ingress = record (p.ingress) { socket = s } } in
      let change = register association.relay_addr association.relay_socket in
      let (queue, capacity) = with_registry-queue change p' in
      elim (Option-cases (control_loop c.control)) [
        | inl waits ↦ rw (e, serve_associate, waits) (queue, capacity)
        | inr (result, ended) ↦
            let (queue', capacity') =
              end_associate-KeepsQueue c association.relay_addr result (with_registry change p') in
            rw (e, serve_associate, ended) (queue' ∙ queue, capacity' ∙ capacity)
      ]
  | inr (why, s, e) ↦ rw (e, serve_associate) (refl, refl)
]

-- Whatever a client sends and whatever happens to it, its handler leaves a queue within the capacity
-- of the channel, which keeps what it had, with one intent behind it at most.
pub handle_connection-IsBounded :
    (c : Course) (p : Proxy) → length p.queue ≤ p.capacity → IsBounded p (handle_connection c p).1
unfolding handle_connection
handle_connection-IsBounded c p bounded = elim (Run-cases (parse_client_request p.ingress)) [
  | inl (connect intent, i, e) ↦
      rw (e, handle_connection_inner) (offer-IsBounded intent (record p { ingress = i }) bounded)
  | inl (udp_associate hint, i, e) ↦
      let (queue, capacity) = serve_associate-KeepsQueue c (record p { ingress = i }) in
      rw (e, handle_connection_inner) (rw (queue, capacity) bounded, capacity, inl queue)
  | inr (why, i, e) ↦ rw (e, handle_connection_inner) (bounded, refl, inl refl)
]
