-- ===== src/Socks5/Request/Defs.antt =====
-- src/socks5/mod.rs: `parse_request` and `parse_client_request`. The stream that a `ProxyIntent`
-- and a `UdpAssociateIntent` own is the socket of the state.
use newghost.Prelude.{ℕ, ◌+◌, ◌%◌, ◌^◌, not, List, [], ◌∷◌, ◌==◌, if◌then◌else◌}
use newghost.Prelude.Program.{Program, done, failed, ◌>>=◌, ◌>>◌, returns, fails, fail_if, some_or}
use newghost.Net.{v4, SocketAddr}
use newghost.Net.Utf8.{from_utf8}
use newghost.Net.BigEndian.{from_be_bytes}
use newghost.Net.Socket.{Socket, read_exact, write_all, octet, contains}
use newghost.Datagram.Relay.{UdpAssociateError}

-- A domain is the text of the client, byte for byte.
pub data TargetAddr : Type 0 where
  ip : SocketAddr → TargetAddr
  domain : List ℕ → ℕ → TargetAddr

pub data ProxyProtocol : Type 0 where
  socks5 : ProxyProtocol

-- The errors that the code renders into `Socks5Error::Io`.
pub data IoCause : Type 0 where
  early_eof broken_pipe shutdown_failed control_failed runtime_join_failed total_timeout_exceeded :
      IoCause
  associate : UdpAssociateError → IoCause

pub data Socks5Error : Type 0 where
  unsupported_version unsupported_command unsupported_address_type : ℕ → Socks5Error
  no_acceptable_auth_method invalid_target_address : Socks5Error
  io : IoCause → Socks5Error

pub record ProxyIntent : Type 0 where
  pub target : TargetAddr
  pub protocol_kind : ProxyProtocol
  pub request_id : ℕ

pub data ParsedRequest : Type 0 where
  connect : ProxyIntent → ParsedRequest
  udp_associate : TargetAddr → ParsedRequest

-- The socket of one client, and the counter `NEXT_REQUEST_ID` that all clients share.
pub record Ingress : Type 0 where
  pub socket : Socket
  pub next_request_id : ℕ

abbrev pub Reads : Type 0 → Type 0
Reads A = Program Socket Socks5Error A

abbrev pub read : ℕ → Reads (List ℕ)
read n = read_exact n (io early_eof)

abbrev pub write : List ℕ → Reads (Unit {0})
write bytes = write_all bytes (io broken_pipe)

abbrev pub refuse_methods : Reads (Unit {0})
refuse_methods = do write (0x05 ∷ 0xff ∷ []); fails no_acceptable_auth_method

-- The greeting, the methods and the answer to them.
unfoldable pub negotiate : Reads (Unit {0})
unfolding read_exact write_all
negotiate = do
  greeting ← read 2
  fail_if (not (octet greeting 0 == 0x05)) (unsupported_version (octet greeting 0))
  methods ← read (octet greeting 1)
  if contains 0x00 methods then write (0x05 ∷ 0x00 ∷ []) else refuse_methods

unfoldable pub read_ip : Reads TargetAddr
unfolding read_exact
read_ip = do
  ipv4 ← read 4
  port ← read 2
  let address = v4 (octet ipv4 0) (octet ipv4 1) (octet ipv4 2) (octet ipv4 3)
  returns (ip (record { ip = address; port = from_be_bytes port }))

unfoldable pub read_domain : Reads TargetAddr
unfolding read_exact
read_domain = do
  len ← read 1
  bytes ← read (octet len 0)
  port ← read 2
  name ← some_or (from_utf8 bytes) invalid_target_address
  returns (domain name (from_be_bytes port))

unfoldable pub read_target : ℕ → Reads TargetAddr
unfolding read_ip read_domain
read_target atyp =
    if atyp == 0x01
    then read_ip
    else if atyp == 0x03
    then read_domain
    else fails (unsupported_address_type atyp)

-- The request: its command and its target. The target is read before the command is looked at.
unfoldable pub read_request : Reads (ℕ × TargetAddr)
unfolding read_exact read_target
read_request = do
  header ← read 4
  fail_if (not (octet header 0 == 0x05)) (unsupported_version (octet header 0))
  target ← read_target (octet header 3)
  returns (octet header 1, target)

abbrev pub on_socket : {A : Type 0} → Reads A → Program Ingress Socks5Error A
on_socket reads i = elim (reads i.socket) [
  | done a s ↦ done a (record i { socket = s })
  | failed e s ↦ failed e (record i { socket = s })
]

-- `fetch_add` wraps at 2⁶⁴.
abbrev pub connect_to : TargetAddr → Program Ingress Socks5Error ParsedRequest
connect_to target i =
    done
      (connect (record { target = target; protocol_kind = socks5; request_id = i.next_request_id }))
      (record i { next_request_id = (i.next_request_id + 1) % 2 ^ 64 })

unfoldable pub with_command : ℕ → TargetAddr → Program Ingress Socks5Error ParsedRequest
with_command command target =
    if command == 0x01
    then connect_to target
    else if command == 0x03
    then returns (udp_associate target)
    else fails (unsupported_command command)

unfoldable pub parse_client_request : Program Ingress Socks5Error ParsedRequest
unfolding negotiate read_request with_command
parse_client_request = do
  on_socket negotiate
  (command, target) ← on_socket read_request
  with_command command target

abbrev pub only_connect : ParsedRequest → Program Ingress Socks5Error ProxyIntent
only_connect (connect intent) = returns intent
only_connect (udp_associate hint) = fails (unsupported_command 0x03)

unfoldable pub parse_request : Program Ingress Socks5Error ProxyIntent
unfolding parse_client_request
parse_request = do request ← parse_client_request; only_connect request
