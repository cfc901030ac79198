-- ===== src/Socks5/Connection/Cleanup.antt =====
-- What a UDP association of src/socks5/mod.rs leaves in the registry of relay sockets.
use newghost.Prelude.{◌≡◌, refl, ◌∙◌, arith, Bool, true, false, Option, none, some, if◌then◌else◌}
use newghost.Prelude.Program.{done}
use newghost.Net.{SocketAddr, addr_eq_iff}
use newghost.Net.Socket.{Socket}
use newghost.Socks5.Request.{TargetAddr, udp_associate, Ingress, parse_client_request}
use newghost.Socks5.Associate.{
  UdpSocket, UdpRelaySocketRegistry, register, remove, socket_for, UdpAssociateRecord,
  handle_udp_associate,
}
use newghost.Socks5.Associate.Sockets.{socket_for-remove, socket_for-register}
use newghost.Socks5.Connection.Defs.{
  Proxy, Course, RuntimeEnd, join_failed, loop_returned, Handled, control_loop, end_associate,
  serve_associate, handle_connection_inner, handle_connection, within_timeout, after_control,
}

-- The relay socket that the proxy keeps for the address.
abbrev pub kept_for : SocketAddr → Proxy → Option UdpSocket
kept_for addr p = elim p.relay_sockets [ none ↦ none | some sockets ↦ socket_for addr sockets ]

abbrev joins : RuntimeEnd → Bool
joins join_failed = false
joins (loop_returned result) = true

-- The control connection closed in time, and the task of the loop, if there is one, was joined.
abbrev pub ended : Course → Option Handled → Bool
ended c none = false
ended c (some result) = if c.has_target then joins c.runtime else true

removed_self :
    (addr : SocketAddr) (sockets : UdpRelaySocketRegistry)
    → socket_for addr (remove addr sockets) ≡ none
removed_self addr sockets =
    socket_for-remove addr addr sockets ∙ rw ((addr_eq_iff addr addr).1 refl) refl

registered_self :
    (addr : SocketAddr) (socket : UdpSocket) (sockets : UdpRelaySocketRegistry)
    → socket_for addr (register addr socket sockets) ≡ some socket
registered_self addr socket sockets =
    socket_for-register addr socket addr sockets ∙ rw ((addr_eq_iff addr addr).1 refl) refl

kept_at_end :
    (c : Course) (addr : SocketAddr) (socket : UdpSocket) (closes : Option Handled) (p : Proxy)
    (sockets : UdpRelaySocketRegistry)
    → p.relay_sockets ≡ some (register addr socket sockets)
    → kept_for addr (within_timeout (after_control c addr closes p)).1
      ≡ (if ended c closes then none else some socket)
unfolding end_associate
kept_at_end c addr socket none p sockets kept = rw kept (registered_self addr socket sockets)
kept_at_end c addr socket (some result) p sockets kept =
    let here = registered_self addr socket sockets in
    let gone = removed_self addr (register addr socket sockets) in
    rw kept (ground (arith, here, gone, kept))

-- Where a client's UDP ASSOCIATE was parsed and answered, and the proxy keeps relay sockets, its
-- relay socket is out of the registry when the handler is done exactly where the control
-- connection closed before the total timeout and the task of the relay loop, if there is one,
-- could be joined. In the other two cases the socket stays registered.
pub handle_connection_cleanup :
    (c : Course) (p : Proxy) (hint : TargetAddr) (i : Ingress) (association : UdpAssociateRecord)
    (s : Socket) (sockets : UdpRelaySocketRegistry)
    → parse_client_request p.ingress ≡ done (udp_associate hint) i
    → handle_udp_associate c.os i.socket ≡ done association s
    → p.relay_sockets ≡ some sockets
    → kept_for association.relay_addr (handle_connection c p).1
      ≡ (if ended c (control_loop c.control) then none else some association.relay_socket)
unfolding handle_connection
handle_connection_cleanup c p hint i association s sockets parsed answered keeps =
    rw (parsed, handle_connection_inner, answered, serve_associate, keeps)
      (kept_at_end c association.relay_addr association.relay_socket (control_loop c.control)
        (record p {
          ingress = record i { socket = s };
          relay_sockets = some (register association.relay_addr association.relay_socket sockets);
        })
        sockets refl)
