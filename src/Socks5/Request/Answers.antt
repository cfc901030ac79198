-- ===== src/Socks5/Request/Answers.antt =====
-- What the parser of src/socks5/mod.rs writes to the client, whatever the client sends.
use newghost.Prelude.{◌+◌, ◌%◌, ◌^◌, ◌≡◌, [], ◌∷◌, ◌++◌, ◌⊎◌}
use newghost.Prelude.Program.{Run, done, failed, left_in}
use newghost.Net.Socket.{Socket}
use newghost.Socks5.Request.Defs.{
  Socks5Error, no_acceptable_auth_method, ParsedRequest, connect, udp_associate, Ingress,
}

abbrev KeepsOutput : {A : Type 0} → Socket → Run Socket Socks5Error A → Type 0
KeepsOutput s run = (left_in run).output ≡ s.output

abbrev Negotiated : Socket → Run Socket Socks5Error (Unit {0}) → Type 0
Negotiated s (done u t) = t.output ≡ s.output ++ 0x05 ∷ 0x00 ∷ []
Negotiated s (failed e t) =
    (t.output ≡ s.output)
    ⊎ ((e ≡ no_acceptable_auth_method) × (t.output ≡ s.output ++ 0x05 ∷ 0xff ∷ []))

-- The parser's end of a client's stream: what it wrote, and what became of the shared counter.
abbrev pub Answered : Ingress → Run Ingress Socks5Error ParsedRequest → Type 0
Answered i (done (connect intent) j) =
    (j.socket.output ≡ i.socket.output ++ 0x05 ∷ 0x00 ∷ [])
    × (intent.request_id ≡ i.next_request_id)
    × (j.next_request_id ≡ (i.next_request_id + 1) % 2 ^ 64)
Answered i (done (udp_associate hint) j) =
    (j.socket.output ≡ i.socket.output ++ 0x05 ∷ 0x00 ∷ [])
    × (j.next_request_id ≡ i.next_request_id)
Answered i (failed e j) =
    (j.next_request_id ≡ i.next_request_id)
    × ((j.socket.output ≡ i.socket.output)
        ⊎ ((j.socket.output ≡ i.socket.output ++ 0x05 ∷ 0x00 ∷ [])
            ⊎ ((e ≡ no_acceptable_auth_method)
                × (j.socket.output ≡ i.socket.output ++ 0x05 ∷ 0xff ∷ []))))
