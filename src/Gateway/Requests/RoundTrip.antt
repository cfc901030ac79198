-- ===== src/Gateway/Requests/RoundTrip.antt =====
-- The requests of src/wss_gateway/mod.rs from the client's text to the server's parser.
use newghost.Prelude.{
  ℕ, ◌-◌, ◌^◌, ◌<◌, ◌≡◌, refl, arith, false, none, some, List, [], ◌∷◌, ◌++◌, ◌==◌,
}
use newghost.Prelude.Outcome.{ok}
use newghost.Net.Blank.{is_blank}
use newghost.Net.Decimal.{to_decimal, parse_decimal-to_decimal, is_blank-to_decimal}
use newghost.Net.Socket.{contains}
use newghost.Gateway.Requests.Defs.{
  connect_request, datagram_open_request, at_space, request_text, parse_target_text,
  parse_target_request, strip_prefix, parse_datagram_open_request,
}

at_space-append : (xs ys : List ℕ) → contains 32 xs ≡ false → at_space (xs ++ 32 ∷ ys) ≡ (xs, ys)
unfolding at_space
at_space-append [] ys h = refl
at_space-append (x ∷ xs) ys h =
    let other : (x == 32) ≡ false = ground (arith, h) in
    let more = at_space-append xs ys (ground (arith, h)) in rw (other, more) refl

-- A client's CONNECT for a host that is not blank and has no space reaches the server as that
-- host and that port, and the server does not take it for the opening of a datagram path.
pub parse_target_request-connect_request :
    (host : List ℕ) (port : ℕ)
    → contains 32 host ≡ false
    → is_blank host ≡ false
    → port < 2 ^ 16
    → (parse_target_request (connect_request host port) ≡ ok (host, port))
      × (parse_datagram_open_request (connect_request host port) ≡ none)
unfolding parse_target_request connect_request request_text parse_target_text
    parse_datagram_open_request strip_prefix
parse_target_request-connect_request host port whole seen fits =
    let second = at_space-append host (to_decimal port) whole in
    (
      rw
          (
            second,
            seen,
            is_blank-to_decimal port,
            parse_decimal-to_decimal (2 ^ 16 - 1) port (omega (arith, fits)) (omega (arith, fits)),
          )
          refl,
      refl,
    )

-- A client's request to open the datagram path of an association reaches the server as that
-- association.
pub parse_datagram_open_request-datagram_open_request :
    (id : ℕ) → id < 2 ^ 64 → parse_datagram_open_request (datagram_open_request id) ≡ some id
unfolding parse_datagram_open_request datagram_open_request strip_prefix
parse_datagram_open_request-datagram_open_request id fits =
    rw (parse_decimal-to_decimal (2 ^ 64 - 1) id (omega (arith, fits)) (omega (arith, fits))) refl
