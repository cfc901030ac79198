-- ===== src/Gateway/EndToEnd.antt =====
-- A SOCKS5 client's target from src/socks5/mod.rs over src/proxy_bridge/mod.rs and the CONNECT of
-- src/wss_gateway/mod.rs to the server's parser.
use newghost.Prelude.{ℕ, ◌+◌, ◌%◌, ◌^◌, ◌<◌, ◌≡◌, refl, [], ◌∷◌, true, false, List, ◌++◌}
use newghost.Prelude.Outcome.{ok}
use newghost.Prelude.Program.{done}
use newghost.Net.{IpText}
use newghost.Net.Utf8.{is_utf8}
use newghost.Net.Blank.{is_blank}
use newghost.Net.Socket.{contains}
use newghost.Socks5.Request.{domain, ProxyIntent, socks5, Ingress, with_command, parse_request}
use newghost.Socks5.Request.RoundTrip.{greeting, request, parse_client_request-encoded}
use newghost.ProxyBridge.Target.{target_host, target_port}
use newghost.Gateway.Requests.{connect_request, parse_target_request}
use newghost.Gateway.Requests.RoundTrip.{parse_target_request-connect_request}

-- A client that offers the method 0x00 and sends a CONNECT for a domain, which is UTF-8, not blank
-- and without a space, has its request parsed into an intent, with what it sent behind the request
-- left for the pump; and the CONNECT that the gateway makes of the intent's host and port is parsed
-- by the server as that domain and that port.
pub parse_request-parse_target_request :
    (text_of : IpText) (methods : List ℕ) (reserved : ℕ) (name : List ℕ) (port : ℕ) (rest : List ℕ)
    (i : Ingress)
    → contains 0x00 methods ≡ true
    → is_utf8 name ≡ true
    → port < 2 ^ 16
    → contains 32 name ≡ false
    → is_blank name ≡ false
    → i.socket.writable ≡ true
    → i.socket.input ≡ greeting methods ++ (request 0x01 reserved (domain name port) ++ rest)
    → (intent : ProxyIntent) × (j : Ingress) × (parse_request i ≡ done intent j)
      × (j.socket.input ≡ rest)
      × (parse_target_request
            (connect_request (target_host text_of intent.target) (target_port intent.target))
          ≡ ok (name, port))
unfolding parse_request with_command target_host target_port
parse_request-parse_target_request text_of methods reserved name port rest i offered utf8 fits whole
      seen writes sent =
    let parsed =
      parse_client_request-encoded methods 0x01 reserved (domain name port) rest i offered
        (utf8, fits) writes sent in
    (
      record { target = domain name port; protocol_kind = socks5; request_id = i.next_request_id },
      record {
        socket = record (i.socket) { input = rest; output = i.socket.output ++ 0x05 ∷ 0x00 ∷ [] };
        next_request_id = (i.next_request_id + 1) % 2 ^ 64;
      },
      rw parsed refl,
      refl,
      (parse_target_request-connect_request name port whole seen fits).0,
    )
