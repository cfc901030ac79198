-- ===== src/Socks5/Connection/Defs.antt =====
-- src/socks5/mod.rs: `handle_connection` and `handle_connection_inner`. The intent queue is the
-- bounded channel to the bridge. The total timeout is modelled where it can cut a handler that has
-- acquired something: while the control connection of a UDP association stays open.
use newghost.Prelude.{
  ℕ, Bool, ◌&&◌, Option, none, some, List, [], ◌∷◌, ◌++◌, length, ltb, if◌then◌else◌,
}
use newghost.Prelude.Outcome.{Outcome, ok, err}
use newghost.Prelude.Program.{done, failed, ◌>>◌}
use newghost.Net.{SocketAddr}
use newghost.Net.Socket.{write_all, shutdown_stream}
use newghost.Datagram.Relay.{UdpAssociateError}
use newghost.Socks5.Reply.{Socks5Reply, general_failure, send_reply}
use newghost.Socks5.Request.{
  Socks5Error, io, shutdown_failed, control_failed, runtime_join_failed, total_timeout_exceeded,
  associate, ProxyIntent, ParsedRequest, connect, udp_associate, Ingress, Reads, write, on_socket,
  parse_client_request,
}
use newghost.Socks5.Associate.{UdpRelaySocketRegistry, register, remove, Os, handle_udp_associate}

-- The proxy, with the stream of the client that is being handled.
pub record Proxy : Type 0 where
  pub ingress : Ingress
  pub queue : List ProxyIntent
  pub capacity : ℕ
  pub receiver_open : Bool
  pub relay_sockets : Option UdpRelaySocketRegistry

-- `read` of one byte of the control connection.
pub data ControlRead : Type 0 where
  end_of_stream some_byte read_failed : ControlRead

-- How the task of the relay loop ended, once it was cancelled.
pub data RuntimeEnd : Type 0 where
  join_failed : RuntimeEnd
  loop_returned : Option UdpAssociateError → RuntimeEnd

-- What happens in the course of a UDP association. `has_target` says that the proxy has a runtime
-- target, and so a task for the relay loop.
pub record Course : Type 0 where
  pub os : Os
  pub has_target : Bool
  pub control : List ControlRead
  pub runtime : RuntimeEnd

abbrev pub Handled : Type 0
Handled = Outcome Socks5Error (Unit {0})

-- A handler that returned, or that still waits when the total timeout expires.
pub data Inner : Type 0 where
  returned : Handled → Proxy → Inner
  waiting : Proxy → Inner

abbrev pub on_stream : Reads (Unit {0}) → Proxy → Inner
on_stream reads p = elim (on_socket reads p.ingress) [
  | done u i ↦ returned (ok u) (record p { ingress = i })
  | failed e i ↦ returned (err e) (record p { ingress = i })
]

unfoldable pub send_reply_and_close : Socks5Reply → Reads (Unit {0})
unfolding write_all send_reply shutdown_stream
send_reply_and_close reply = do write (send_reply reply); shutdown_stream (io shutdown_failed)

-- `try_send`, and the reply of an intent that comes back because the queue is full or closed.
unfoldable pub offer : ProxyIntent → Proxy → Inner
unfolding send_reply_and_close
offer intent p =
    if p.receiver_open && ltb (length p.queue) p.capacity
    then returned (ok tt) (record p { queue = p.queue ++ intent ∷ [] })
    else on_stream (send_reply_and_close general_failure) p

-- `none` while the control connection stays open.
unfoldable pub control_loop : List ControlRead → Option Handled
control_loop [] = none
control_loop (end_of_stream ∷ reads) = some (ok tt)
control_loop (some_byte ∷ reads) = control_loop reads
control_loop (read_failed ∷ reads) = some (err (io control_failed))

abbrev pub with_registry : (UdpRelaySocketRegistry → UdpRelaySocketRegistry) → Proxy → Proxy
with_registry change p = elim p.relay_sockets [
  | none ↦ p
  | some sockets ↦ record p { relay_sockets = some (change sockets) }
]

-- `runtime_result.map_err(…)?`, then the result of the control loop.
abbrev pub after_runtime : Option UdpAssociateError → Handled → Handled
after_runtime none control_result = control_result
after_runtime (some e) control_result = err (io (associate e))

-- The task that failed to join returns before the registry is cleaned up.
abbrev pub end_runtime : RuntimeEnd → SocketAddr → Handled → Proxy → Inner
end_runtime join_failed relay_addr control_result p = returned (err (io runtime_join_failed)) p
end_runtime (loop_returned result) relay_addr control_result p =
    returned (after_runtime result control_result) (with_registry (remove relay_addr) p)

unfoldable pub end_associate : Course → SocketAddr → Handled → Proxy → Inner
unfolding remove
end_associate c relay_addr control_result p =
    if c.has_target
    then end_runtime c.runtime relay_addr control_result p
    else returned control_result (with_registry (remove relay_addr) p)

abbrev pub after_control : Course → SocketAddr → Option Handled → Proxy → Inner
after_control c relay_addr none p = waiting p
after_control c relay_addr (some control_result) p = end_associate c relay_addr control_result p

unfoldable pub serve_associate : Course → Proxy → Inner
unfolding handle_udp_associate register control_loop end_associate
serve_associate c p = elim (handle_udp_associate c.os p.ingress.socket) [
  | failed e s ↦
      returned (err (io (associate e))) (record p { ingress = record (p.ingress) { socket = s } })
  | done association s ↦ after_control c association.relay_addr (control_loop c.control) (
      with_registry (register association.relay_addr association.relay_socket)
        (record p { ingress = record (p.ingress) { socket = s } }))
]

abbrev pub serve : Course → ParsedRequest → Proxy → Inner
serve c (connect intent) p = offer intent p
serve c (udp_associate client_hint) p = serve_associate c p

unfoldable pub handle_connection_inner : Course → Proxy → Inner
unfolding parse_client_request offer serve_associate
handle_connection_inner c p = elim (parse_client_request p.ingress) [
  | failed e i ↦ returned (err e) (record p { ingress = i })
  | done request i ↦ serve c request (record p { ingress = i })
]

abbrev pub within_timeout : Inner → Handled × Proxy
within_timeout (returned result p) = (result, p)
within_timeout (waiting p) = (err (io total_timeout_exceeded), p)

unfoldable pub handle_connection : Course → Proxy → Handled × Proxy
unfolding handle_connection_inner
handle_connection c p = within_timeout (handle_connection_inner c p)
