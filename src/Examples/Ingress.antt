-- ===== src/Examples/Ingress.antt =====
-- The theorems on the SOCKS5 ingress of src/socks5/ at concrete inputs.
use newghost.Net.Socket.{shutdown_stream, read_exact, write_all}
use newghost.Socks5.Connection.{
  send_reply_and_close, offer, handle_connection_inner, Proxy, Course, some_byte, loop_returned,
  control_loop, handle_connection,
}
use newghost.Prelude.{false, ℕ, ◌≡◌, ◌≢◌, refl, arith, true, none, some, List, [], ◌∷◌, ◌++◌, inl}
use newghost.Prelude.Outcome.{ok, panic}
use newghost.Net.{v4, SocketAddr}
use newghost.Net.Utf8.{is_utf8}
use newghost.Prelude.Program.{done}
use newghost.Net.Hex.{hex}
use newghost.Net.Blank.{is_blank}
use newghost.ProxyBridge.Target.{target_host, target_port}
use newghost.Gateway.Requests.{connect_request, parse_target_request}
use newghost.Gateway.EndToEnd.{parse_request-parse_target_request}
use newghost.Socks5.Request.{
  TargetAddr, parse_request, ip, domain, ProxyIntent, socks5, Ingress, negotiate, read_request,
  read_target, read_domain, with_command, parse_client_request,
}
use newghost.Socks5.Request.RoundTrip.{greeting, request, parse_client_request-encoded}
use newghost.Socks5.Associate.{
  Os, handle_udp_associate, LoopEvent, received, Forward, run_udp_relay_runtime_loop,
}
use newghost.Socks5.Associate.Loop.{AllGoverned, run_udp_relay_runtime_loop-AllGoverned}
use newghost.Socks5.Connection.Queue.{
  Told, IsBounded, handle_connection_connect, handle_connection-IsBounded,
}
use newghost.Socks5.Connection.Cleanup.{kept_for, handle_connection_cleanup}

abbrev site : TargetAddr
site = domain (97 ∷ 98 ∷ []) 80

abbrev from_client : ℕ → Ingress
from_client command = record {
  socket = record {
    input = greeting (0 ∷ 2 ∷ []) ++ (request command 0 site ++ 9 ∷ []);
    output = [];
    writable = true;
    closable = true;
    is_shut = false;
  };
  next_request_id = 7;
}

abbrev parsed : Ingress
parsed = record {
  socket = record {
    input = 9 ∷ [];
    output = 5 ∷ 0 ∷ [];
    writable = true;
    closable = true;
    is_shut = false;
  };
  next_request_id = 7;
}

parse_client_request-encoded_example :
    parse_client_request (from_client 1) ≡ with_command 1 site parsed
unfolding is_utf8
parse_client_request-encoded_example =
    parse_client_request-encoded (0 ∷ 2 ∷ []) 1 0 site (9 ∷ []) (from_client 1) refl
      (refl, omega arith) refl refl

abbrev relay : SocketAddr
relay = record { ip = v4 127 0 0 1; port = 4_000 }

abbrev client : SocketAddr
client = record { ip = v4 127 0 0 1; port = 5_000 }

-- A packet to 10.0.0.1:53 of the client, and one of a stranger.
abbrev packets : List LoopEvent
packets =
    received (0 ∷ 0 ∷ 0 ∷ 1 ∷ 10 ∷ 0 ∷ 0 ∷ 1 ∷ 0 ∷ 53 ∷ 1 ∷ []) client
    ∷ received (0 ∷ 0 ∷ 0 ∷ 1 ∷ 10 ∷ 0 ∷ 0 ∷ 1 ∷ 0 ∷ 53 ∷ 1 ∷ []) relay
    ∷ []

abbrev takes_all : Forward
takes_all handed h = none

run_udp_relay_runtime_loop-AllGoverned_example :
    let end = run_udp_relay_runtime_loop takes_all relay none packets [] in
    AllGoverned relay client end.handed × (end.result ≢ some panic)
run_udp_relay_runtime_loop-AllGoverned_example =
    run_udp_relay_runtime_loop-AllGoverned takes_all relay none packets relay

abbrev system : Os
system = record { control_local_addr = inl client; bind = λ address. inl (relay, 3) }

-- The control connection stays open, past the total timeout.
abbrev course : Course
course = record {
  os = system;
  has_target = true;
  control = some_byte ∷ [];
  runtime = loop_returned none;
}

abbrev proxy : ℕ → Proxy
proxy command = record {
  ingress = from_client command;
  queue = [];
  capacity = 0;
  receiver_open = true;
  relay_sockets = some [];
}

abbrev intent : ProxyIntent
intent = record { target = site; protocol_kind = socks5; request_id = 7 }

handle_connection_connect_example :
    Told intent
      (record parsed { next_request_id = 8 })
      (proxy 1)
      (handle_connection course (proxy 1)).1
unfolding parse_client_request negotiate read_request read_target read_domain read_exact write_all
    with_command is_utf8 handle_connection_inner offer send_reply_and_close shutdown_stream
    handle_connection
handle_connection_connect_example =
    handle_connection_connect course (proxy 1) intent (record parsed { next_request_id = 8 }) refl
      refl

handle_connection-IsBounded_example : IsBounded (proxy 1) (handle_connection course (proxy 1)).1
handle_connection-IsBounded_example = handle_connection-IsBounded course (proxy 1) (omega arith)

handle_connection_cleanup_example : kept_for relay (handle_connection course (proxy 3)).1 ≡ some 3
unfolding parse_client_request negotiate read_request read_target read_domain read_exact write_all
    with_command is_utf8 control_loop handle_udp_associate
handle_connection_cleanup_example =
    handle_connection_cleanup course (proxy 3) site parsed
      (record { relay_addr = relay; relay_socket = 3 })
      (record (parsed.socket) { output = (5 ∷ 0 ∷ []) ++ request 0 0 (ip relay) }) [] refl refl refl

parse_request-parse_target_request_example :
    (intent : ProxyIntent) × (j : Ingress) × (parse_request (from_client 1) ≡ done intent j)
    × (j.socket.input ≡ 9 ∷ [])
    × (parse_target_request
          (connect_request (target_host hex intent.target) (target_port intent.target))
        ≡ ok (97 ∷ 98 ∷ [], 80))
unfolding is_utf8 is_blank
parse_request-parse_target_request_example =
    parse_request-parse_target_request hex (0 ∷ 2 ∷ []) 0 (97 ∷ 98 ∷ []) 80 (9 ∷ []) (from_client 1)
      refl refl (omega arith) refl refl refl refl
