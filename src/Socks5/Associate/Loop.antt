-- ===== src/Socks5/Associate/Loop.antt =====
-- What the relay loop of src/socks5/udp_associate.rs hands to its runtime target.
use newghost.Prelude.{
  ℕ, ◌≡◌, ◌≢◌, refl, subst, Option, none, some, List, [], ◌∷◌, ◌++◌, inl, inr, Option-cases,
}
use newghost.Prelude.Outcome.{ok, panic, Outcome-cases}
use newghost.Net.{SocketAddr}
use newghost.Datagram.Contract.{DatagramEnvelope, validate}
use newghost.Datagram.Relay.{parse_udp_datagram}
use newghost.Datagram.Relay.Safety.{parse_udp_datagram-ne-panic, parse_udp_datagram_accepts}
use newghost.Socks5.Associate.Defs.{
  LoopEvent, loop_cancelled, recv_failed, received, Handoff, handoff_of, Forward, LoopEnd,
  unwrap_or, run_udp_relay_runtime_loop,
}

-- The envelope that a handoff makes for the association 0.
abbrev envelope_of : Handoff → DatagramEnvelope
envelope_of h = record {
  association_id = 0;
  relay_client_addr = h.expected_client_addr;
  target = h.target;
  payload = h.payload;
}

abbrev pub IsGoverned : SocketAddr → SocketAddr → Handoff → Type 0
IsGoverned relay client h =
    (h.packet_source ≡ client)
    × (h.relay_addr ≡ relay)
    × (h.expected_client_addr ≡ client)
    × (validate (envelope_of h) ≡ ok tt)

abbrev pub AllGoverned : SocketAddr → SocketAddr → List Handoff → Type 0
AllGoverned relay client [] = Unit {0}
AllGoverned relay client (h ∷ handed) = IsGoverned relay client h × AllGoverned relay client handed

AllGoverned-append :
    (relay client : SocketAddr) (handed : List Handoff) (h : Handoff)
    → AllGoverned relay client handed
    → IsGoverned relay client h
    → AllGoverned relay client (handed ++ h ∷ [])
AllGoverned-append relay client [] h all one = (one, tt)
AllGoverned-append relay client (x ∷ handed) h all one =
    (all.0, AllGoverned-append relay client handed h all.1 one)

-- The client of a loop: the one that it expects, or the source of the first packet.
abbrev pub client_of : Option SocketAddr → List LoopEvent → SocketAddr → SocketAddr
client_of (some client) events otherwise = client
client_of none [] otherwise = otherwise
client_of none (received packet source ∷ events) otherwise = source
client_of none (loop_cancelled ∷ events) otherwise = otherwise
client_of none (recv_failed why ∷ events) otherwise = otherwise

parsed-IsGoverned :
    (relay source learned : SocketAddr) (packet : List ℕ) (envelope : DatagramEnvelope)
    → parse_udp_datagram source learned packet 0 ≡ ok envelope
    → IsGoverned relay learned (handoff_of source relay learned envelope)
parsed-IsGoverned relay source learned packet envelope parsed =
    let (known, client, id, valid) =
      parse_udp_datagram_accepts source learned packet 0 envelope parsed in
    (
      known,
      refl,
      refl,
      subst (λ e. validate e ≡ ok tt)
          (λ i. record {
            association_id = id i;
            relay_client_addr = client i;
            target = envelope.target;
            payload = envelope.payload;
          })
          valid,
    )

module _ (forward : Forward) (relay : SocketAddr) where
  abbrev Governed : SocketAddr → LoopEnd → Type 0
  Governed client end = AllGoverned relay client end.handed

  loop-Governed :
      (client : SocketAddr) (events : List LoopEvent) (handed : List Handoff)
      → AllGoverned relay client handed
      → Governed client (run_udp_relay_runtime_loop forward relay (some client) events handed)
  unfolding run_udp_relay_runtime_loop
  loop-Governed client [] handed all = all
  loop-Governed client (loop_cancelled ∷ events) handed all = all
  loop-Governed client (recv_failed why ∷ events) handed all = all
  loop-Governed client (received packet source ∷ events) handed all =
      elim (Outcome-cases (parse_udp_datagram source client packet 0)) [
        | inl (envelope, parsed) ↦
            let h = handoff_of source relay client envelope in
            let all' =
              AllGoverned-append relay client handed h all
                (parsed-IsGoverned relay source client packet envelope parsed) in
            rw (parsed, run_udp_relay_runtime_loop)
              (elim (Option-cases (forward handed h)) [
                | inl taken ↦ rw taken (loop-Governed client events (handed ++ h ∷ []) all')
                | inr (e, refused) ↦ rw refused all'
              ])
        | inr (inl (e, failed)) ↦ rw (failed, run_udp_relay_runtime_loop) all
        | inr (inr bad) ↦ rw (bad, run_udp_relay_runtime_loop) all
      ]

  loop_result-ne-panic :
      (expected : Option SocketAddr) (events : List LoopEvent) (handed : List Handoff)
      → (run_udp_relay_runtime_loop forward relay expected events handed).result ≢ some panic
  unfolding run_udp_relay_runtime_loop
  loop_result-ne-panic expected [] handed = λ p. cc p
  loop_result-ne-panic expected (loop_cancelled ∷ events) handed = λ p. cc p
  loop_result-ne-panic expected (recv_failed why ∷ events) handed = λ p. cc p
  loop_result-ne-panic expected (received packet source ∷ events) handed =
      let learned = unwrap_or expected source in
      elim (Outcome-cases (parse_udp_datagram source learned packet 0)) [
        | inl (envelope, parsed) ↦
            let h = handoff_of source relay learned envelope in
            rw (parsed, run_udp_relay_runtime_loop)
              (elim (Option-cases (forward handed h)) [
                | inl taken ↦
                    rw taken (loop_result-ne-panic (some learned) events (handed ++ h ∷ []))
                | inr (e, refused) ↦ rw refused (λ p. cc p)
              ])
        | inr (inl (e, failed)) ↦ rw (failed, run_udp_relay_runtime_loop) (λ p. cc p)
        | inr (inr bad) ↦ absurd (parse_udp_datagram-ne-panic source learned packet 0 bad)
      ]

  -- A loop that starts with the client of the hint, or with none, hands over datagrams of one
  -- client only: each comes from a packet of that client, which is the client of the hint, or else
  -- the source of the first packet, and names it. Each names the relay of the loop and meets the
  -- datagram contract, whatever packets arrive from whomever, and
  -- the loop does not panic.
  pub run_udp_relay_runtime_loop-AllGoverned :
      (expected : Option SocketAddr) (events : List LoopEvent) (otherwise : SocketAddr)
      → let end = run_udp_relay_runtime_loop forward relay expected events [] in
        AllGoverned relay (client_of expected events otherwise) end.handed
        × (end.result ≢ some panic)
  unfolding run_udp_relay_runtime_loop
  run_udp_relay_runtime_loop-AllGoverned (some client) events otherwise =
      (loop-Governed client events [] tt, loop_result-ne-panic (some client) events [])
  run_udp_relay_runtime_loop-AllGoverned none [] otherwise = (tt, λ p. cc p)
  run_udp_relay_runtime_loop-AllGoverned none (loop_cancelled ∷ events) otherwise = (tt, λ p. cc p)
  run_udp_relay_runtime_loop-AllGoverned none (recv_failed why ∷ events) otherwise = (tt, λ p. cc p)
  run_udp_relay_runtime_loop-AllGoverned none (received packet source ∷ events) otherwise = (
    loop-Governed source (received packet source ∷ events) [] tt,
    loop_result-ne-panic none (received packet source ∷ events) [],
  )
