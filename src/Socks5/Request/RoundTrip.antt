-- ===== src/Socks5/Request/RoundTrip.antt =====
-- The requests of src/socks5/mod.rs against the bytes that RFC 1928 has a client send.
use newghost.Prelude.{
  ℕ, ◌^◌, ◌<◌, ◌≡◌, refl, ap, ◌∙◌, true, List, [], ◌∷◌, ◌++◌, append_assoc, length,
}
use newghost.Prelude.Program.{done}
use newghost.Net.{IpAddr, v4, v6}
use newghost.Net.Utf8.{is_utf8}
use newghost.Net.BigEndian.{to_be_bytes, from_be_bytes-to_be_bytes}
use newghost.Net.Socket.{Socket, read_exact-append, write_all, contains}
use newghost.Socks5.Request.Defs.{
  TargetAddr, ip, domain, io, early_eof, Ingress, Reads, on_socket, negotiate, read_ip, read_domain,
  read_target, read_request, with_command, parse_client_request,
}

-- A greeting that offers the methods.
abbrev pub greeting : List ℕ → List ℕ
greeting methods = 0x05 ∷ length methods ∷ methods

abbrev ip_bytes : IpAddr → List ℕ
ip_bytes (v4 a b c d) = a ∷ b ∷ c ∷ d ∷ []
ip_bytes (v6 n) = to_be_bytes 16 n

abbrev pub target_bytes : TargetAddr → List ℕ
target_bytes (ip address) = ip_bytes address.ip ++ to_be_bytes 2 address.port
target_bytes (domain name port) = length name ∷ (name ++ to_be_bytes 2 port)

abbrev ip_type : IpAddr → ℕ
ip_type (v4 a b c d) = 0x01
ip_type (v6 n) = 0x04

abbrev pub address_type : TargetAddr → ℕ
address_type (ip address) = ip_type address.ip
address_type (domain name port) = 0x03

-- A request, with whatever the client puts into the reserved byte.
abbrev pub request : ℕ → ℕ → TargetAddr → List ℕ
request command reserved target =
    0x05 ∷ command ∷ reserved ∷ address_type target ∷ target_bytes target

-- What a client can ask for: an IPv4 address, or a domain that is UTF-8.
abbrev IsV4 : IpAddr → Type 0
IsV4 (v4 a b c d) = Unit {0}
IsV4 (v6 n) = ⊥

abbrev pub Sendable : TargetAddr → Type 0
Sendable (ip address) = IsV4 address.ip × (address.port < 2 ^ 16)
Sendable (domain name port) = (is_utf8 name ≡ true) × (port < 2 ^ 16)

pub negotiate-accepts :
    (methods rest : List ℕ) (s : Socket)
    → contains 0x00 methods ≡ true
    → s.writable ≡ true
    → s.input ≡ greeting methods ++ rest
    → negotiate s ≡ done tt (record s { input = rest; output = s.output ++ 0x05 ∷ 0x00 ∷ [] })
unfolding negotiate write_all
negotiate-accepts methods rest s offered writes sent =
    let s' = record s { input = methods ++ rest } in
    rw
      (
        read_exact-append (0x05 ∷ length methods ∷ []) (methods ++ rest) (io early_eof) s sent,
        read_exact-append methods rest (io early_eof) s' refl,
        offered,
        writes,
      )
      refl

read_ip-encoded :
    (address : IpAddr) (port : ℕ) (rest : List ℕ) (s : Socket)
    → IsV4 address
    → port < 2 ^ 16
    → s.input ≡ (ip_bytes address ++ to_be_bytes 2 port) ++ rest
    → read_target (ip_type address) s
      ≡ done (ip (record { ip = address; port = port })) (record s { input = rest })
unfolding read_target read_ip
read_ip-encoded (v4 a b c d) port rest s is_v4 fits sent =
    let s' = record s { input = to_be_bytes 2 port ++ rest } in
    rw
      (
        read_exact-append (a ∷ b ∷ c ∷ d ∷ []) (to_be_bytes 2 port ++ rest) (io early_eof) s sent,
        read_exact-append (to_be_bytes 2 port) rest (io early_eof) s' refl,
        from_be_bytes-to_be_bytes 2 port fits,
      )
      refl
read_ip-encoded (v6 n) port rest s is_v4 fits sent = absurd is_v4

read_target-encoded :
    (target : TargetAddr) (rest : List ℕ) (s : Socket)
    → Sendable target
    → s.input ≡ target_bytes target ++ rest
    → read_target (address_type target) s ≡ done target (record s { input = rest })
unfolding read_target read_domain
read_target-encoded (ip address) rest s fits sent =
    read_ip-encoded address.ip address.port rest s fits.0 fits.1 sent
read_target-encoded (domain name port) rest s fits sent =
    let port_rest = to_be_bytes 2 port ++ rest in
    let s1 = record s { input = name ++ port_rest } in
    let s2 = record s { input = port_rest } in
    rw
      (
        read_exact-append (length name ∷ []) (name ++ port_rest) (io early_eof) s
            (sent ∙ ap (◌∷◌ (length name)) (append_assoc name (to_be_bytes 2 port) rest)),
        read_exact-append name port_rest (io early_eof) s1 refl,
        read_exact-append (to_be_bytes 2 port) rest (io early_eof) s2 refl,
        fits.0,
        from_be_bytes-to_be_bytes 2 port fits.1,
      )
      refl

read_request-encoded :
    (command reserved : ℕ) (target : TargetAddr) (rest : List ℕ) (s : Socket)
    → Sendable target
    → s.input ≡ request command reserved target ++ rest
    → read_request s ≡ done (command, target) (record s { input = rest })
unfolding read_request
read_request-encoded command reserved target rest s fits sent =
    let more = target_bytes target ++ rest in
    let header = 0x05 ∷ command ∷ reserved ∷ address_type target ∷ [] in
    let s' = record s { input = more } in
    rw
      (
        read_exact-append header more (io early_eof) s sent,
        read_target-encoded target rest s' fits refl,
      )
      refl

on_socket-done :
    {A : Type 0} (reads : Reads A) (i : Ingress) {a : A} {s : Socket}
    → reads i.socket ≡ done a s
    → on_socket reads i ≡ done a (record i { socket = s })
on_socket-done reads i e = rw (e, on_socket) refl

-- Bytes that offer the method 0x00 and then ask for a target, an IPv4 address or a UTF-8 domain,
-- are read as that target and command, whatever the reserved byte: what follows the request stays
-- in the stream for the pump, and the client has been sent 05 00 and nothing else.
pub parse_client_request-encoded :
    (methods : List ℕ) (command reserved : ℕ) (target : TargetAddr) (rest : List ℕ) (i : Ingress)
    → contains 0x00 methods ≡ true
    → Sendable target
    → i.socket.writable ≡ true
    → i.socket.input ≡ greeting methods ++ (request command reserved target ++ rest)
    → parse_client_request i
      ≡ with_command command target (record i {
        socket = record (i.socket) { input = rest; output = i.socket.output ++ 0x05 ∷ 0x00 ∷ [] };
      })
unfolding parse_client_request
parse_client_request-encoded methods command reserved target rest i offered fits writes sent =
    let asked = request command reserved target ++ rest in
    let s = record (i.socket) { input = asked; output = i.socket.output ++ 0x05 ∷ 0x00 ∷ [] } in
    rw
      (
        on_socket-done negotiate i (negotiate-accepts methods asked (i.socket) offered writes sent),
        on_socket-done read_request (record i { socket = s })
            (read_request-encoded command reserved target rest s fits refl),
      )
      refl
