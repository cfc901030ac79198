-- ===== src/Examples/Packets.antt =====
-- The theorems on the packets of src/transport/datagram_contract.rs, src/wss_gateway/datagram.rs and
-- src/socks5/udp_associate.rs at concrete inputs.
use newghost.Prelude.{ℕ, ◌≡◌, ◌≢◌, refl, arith, List, [], ◌∷◌, ◌++◌}
use newghost.Prelude.Outcome.{ok, panic}
use newghost.Net.{v4, SocketAddr}
use newghost.Net.Utf8.{is_utf8}
use newghost.Net.Hex.{hex}
use newghost.Datagram.Contract.{domain, DatagramEnvelope, validate, check_target}
use newghost.Datagram.Frame.{encode_datagram, decode_datagram}
use newghost.Datagram.Frame.RoundTrip.{Fits, decode-encode}
use newghost.Datagram.Frame.Safety.{decode_datagram-ne-panic}
use newghost.Datagram.Relay.{
  parse_target, parse_domain_target, check_contract, parse_udp_datagram, encode_udp_datagram,
}
use newghost.Datagram.Relay.RoundTrip.{parse-encode}
use newghost.Datagram.Relay.Safety.{parse_udp_datagram-ne-panic, parse_udp_datagram_accepts}

abbrev client : SocketAddr
client = record { ip = v4 127 0 0 1; port = 1_080 }

-- A packet to "ab", port 53.
abbrev query : DatagramEnvelope
query = record {
  association_id = 9;
  relay_client_addr = client;
  target = domain (97 ∷ 98 ∷ []) 53;
  payload = 1 ∷ 2 ∷ 3 ∷ [];
}

query-Fits : Fits query
unfolding is_utf8
query-Fits = record {
  id = omega arith;
  relay_ip = (omega arith, omega arith, omega arith, omega arith);
  relay_port = omega arith;
  names = (refl, omega arith);
  size = omega arith;
}

decode-encode_example :
    (bytes : List ℕ) × (encode_datagram hex query ≡ ok bytes)
    × (decode_datagram hex (bytes ++ 0 ∷ []) ≡ ok query)
decode-encode_example = decode-encode hex query (0 ∷ []) query-Fits (omega arith)

decode_datagram-ne-panic_example : decode_datagram hex (1 ∷ 0 ∷ 255 ∷ []) ≢ panic
decode_datagram-ne-panic_example = decode_datagram-ne-panic hex (1 ∷ 0 ∷ 255 ∷ [])

parse-encode_example :
    (packet : List ℕ) × (encode_udp_datagram query ≡ ok packet)
    × (parse_udp_datagram client client packet 9 ≡ ok query)
parse-encode_example =
    parse-encode query query-Fits.names (omega arith) (unfold validate check_target in refl)

abbrev packet_of_query : List ℕ
packet_of_query = 0 ∷ 0 ∷ 0 ∷ 3 ∷ 2 ∷ 97 ∷ 98 ∷ 0 ∷ 53 ∷ 1 ∷ 2 ∷ 3 ∷ []

parse_udp_datagram-ne-panic_example :
    parse_udp_datagram client client (0 ∷ 0 ∷ 0 ∷ 3 ∷ 200 ∷ []) 9 ≢ panic
parse_udp_datagram-ne-panic_example =
    parse_udp_datagram-ne-panic client client (0 ∷ 0 ∷ 0 ∷ 3 ∷ 200 ∷ []) 9

parsed_query : parse_udp_datagram client client packet_of_query 9 ≡ ok query
unfolding parse_udp_datagram is_utf8 parse_target parse_domain_target check_contract validate
parsed_query = refl

parse_udp_datagram_accepts_example :
    (client ≡ client)
    × (query.relay_client_addr ≡ client)
    × (query.association_id ≡ 9)
    × (validate query ≡ ok tt)
parse_udp_datagram_accepts_example =
    parse_udp_datagram_accepts client client packet_of_query 9 query parsed_query
