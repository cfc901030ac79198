-- ===== src/Socks5/Associate/Defs.antt =====
-- src/socks5/udp_associate.rs: `UdpRelaySocketRegistry`, `handle_udp_associate`,
-- `run_udp_relay_runtime_loop` and `hinted_client_addr`. The operating system's answers are the
-- argument `Os`; what the runtime target answers to a datagram, given those it got before, is the
-- argument `Forward`. A socket is named by a number.
use Prim.Native.String.{String}
use newghost.Prelude.{
  ℕ, Bool, ◌&&◌, not, Option, none, some, List, [], ◌∷◌, ◌++◌, ◌⊎◌, inl, inr, ◌==◌, if◌then◌else◌,
}
use newghost.Prelude.Outcome.{ok, err, panic}
use newghost.Prelude.Program.{Program, done, failed, ◌>>=◌, ◌>>◌, returns}
use newghost.Net.{IpAddr, v4, v6, SocketAddr, addr_eq}
use newghost.Net.BigEndian.{to_be_bytes}
use newghost.Net.Socket.{Socket, write_all}
use newghost.Datagram.Contract.{DatagramTarget, DatagramEnvelope}
use newghost.Datagram.Relay.{UdpAssociateError, io, Parsed, parse_udp_datagram}
use newghost.Socks5.Request.{TargetAddr, ip, domain}

abbrev pub UdpSocket : Type 0
UdpSocket = ℕ

-- The map `sockets`; a key occurs once.
abbrev pub UdpRelaySocketRegistry : Type 0
UdpRelaySocketRegistry = List (SocketAddr × UdpSocket)

unfoldable pub remove : SocketAddr → UdpRelaySocketRegistry → UdpRelaySocketRegistry
remove addr [] = []
remove addr ((key, socket) ∷ sockets) =
    let rest = remove addr sockets in if addr_eq key addr then rest else (key, socket) ∷ rest

unfoldable pub register : SocketAddr → UdpSocket → UdpRelaySocketRegistry → UdpRelaySocketRegistry
unfolding remove
register addr socket sockets = (addr, socket) ∷ remove addr sockets

unfoldable pub socket_for : SocketAddr → UdpRelaySocketRegistry → Option UdpSocket
socket_for addr [] = none
socket_for addr ((key, socket) ∷ sockets) =
    if addr_eq key addr then some socket else socket_for addr sockets

-- `local_addr` of the control connection, and the socket that `bind` with port 0 makes.
pub record Os : Type 0 where
  pub control_local_addr : SocketAddr ⊎ UdpAssociateError
  pub bind : IpAddr → (SocketAddr × UdpSocket) ⊎ UdpAssociateError

pub record UdpAssociateRecord : Type 0 where
  pub relay_addr : SocketAddr
  pub relay_socket : UdpSocket

abbrev pub is_unspecified : IpAddr → Bool
is_unspecified (v4 a b c d) = a == 0 && b == 0 && c == 0 && d == 0
is_unspecified (v6 n) = n == 0

unfoldable pub relay_bind_ip : IpAddr → IpAddr
relay_bind_ip (v4 a b c d) = if is_unspecified (v4 a b c d) then v4 127 0 0 1 else v4 a b c d
relay_bind_ip (v6 n) = v6 n

unfoldable pub ip_reply : IpAddr → List ℕ
ip_reply (v4 a b c d) = 0x01 ∷ a ∷ b ∷ c ∷ d ∷ []
ip_reply (v6 n) = 0x04 ∷ to_be_bytes 16 n

unfoldable pub associate_reply : SocketAddr → List ℕ
unfolding ip_reply
associate_reply addr = 0x05 ∷ 0x00 ∷ 0x00 ∷ (ip_reply addr.ip ++ to_be_bytes 2 addr.port)

abbrev pub answer : {A : Type 0} → A ⊎ UdpAssociateError → Program Socket UdpAssociateError A
answer (inl a) s = done a s
answer (inr e) s = failed e s

unfoldable pub handle_udp_associate : Os → Program Socket UdpAssociateError UdpAssociateRecord
unfolding relay_bind_ip associate_reply write_all
handle_udp_associate os = do
  control_local_addr ← answer os.control_local_addr
  (relay_addr, relay_socket) ← answer (os.bind (relay_bind_ip control_local_addr.ip))
  write_all (associate_reply relay_addr) (io "broken pipe")
  returns (record { relay_addr = relay_addr; relay_socket = relay_socket })

unfoldable pub hinted_client_addr : TargetAddr → Option SocketAddr
hinted_client_addr (ip addr) =
    if not (is_unspecified addr.ip) && not (addr.port == 0) then some addr else none
hinted_client_addr (domain name port) = none

-- What the loop's `select!` sees: the cancellation, or what `recv_from` returns.
pub data LoopEvent : Type 0 where
  loop_cancelled : LoopEvent
  recv_failed : String → LoopEvent
  received : List ℕ → SocketAddr → LoopEvent

-- A call of `forward_runtime_datagram`, with the address that its packet came from, which the call
-- does not carry.
pub record Handoff : Type 0 where
  pub packet_source : SocketAddr
  pub relay_addr : SocketAddr
  pub expected_client_addr : SocketAddr
  pub target : DatagramTarget
  pub payload : List ℕ

abbrev pub Forward : Type 0
Forward = List Handoff → Handoff → Option UdpAssociateError

-- The loop, `none` while it waits for its next event, with the datagrams that it handed over.
pub record LoopEnd : Type 0 where
  pub result : Option (Parsed (Unit {0}))
  pub handed : List Handoff

abbrev pub unwrap_or : Option SocketAddr → SocketAddr → SocketAddr
unwrap_or none source = source
unwrap_or (some addr) source = addr

abbrev pub handoff_of : SocketAddr → SocketAddr → SocketAddr → DatagramEnvelope → Handoff
handoff_of source relay learned envelope = record {
  packet_source = source;
  relay_addr = relay;
  expected_client_addr = learned;
  target = envelope.target;
  payload = envelope.payload;
}

-- `expected_source` is `none` until the first packet that is parsed.
unfoldable pub run_udp_relay_runtime_loop :
    Forward → SocketAddr → Option SocketAddr → List LoopEvent → List Handoff → LoopEnd
unfolding parse_udp_datagram
run_udp_relay_runtime_loop forward relay expected [] handed = record {
  result = none;
  handed = handed;
}
run_udp_relay_runtime_loop forward relay expected (loop_cancelled ∷ events) handed = record {
  result = some (ok tt);
  handed = handed;
}
run_udp_relay_runtime_loop forward relay expected (recv_failed why ∷ events) handed = record {
  result = some (err (io why));
  handed = handed;
}
run_udp_relay_runtime_loop forward relay expected (received packet source ∷ events) handed =
    let learned = unwrap_or expected source in
    elim (parse_udp_datagram source learned packet 0) [
      | err e ↦ record { result = some (err e); handed = handed }
      | panic ↦ record { result = some panic; handed = handed }
      | ok envelope ↦ elim (forward handed (handoff_of source relay learned envelope)) [
        | some e ↦ record {
          result = some (err e);
          handed = handed ++ handoff_of source relay learned envelope ∷ [];
        }
        | none ↦
            run_udp_relay_runtime_loop forward relay (some learned) events
              (handed ++ handoff_of source relay learned envelope ∷ [])
      ]
    ]
