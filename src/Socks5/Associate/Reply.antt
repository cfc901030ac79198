-- ===== src/Socks5/Associate/Reply.antt =====
-- The answer to a UDP ASSOCIATE request of src/socks5/udp_associate.rs, and its relay sockets.
use newghost.Prelude.{ℕ, ◌≡◌, refl, true, ◌++◌, inl}
use newghost.Prelude.Program.{done}
use newghost.Net.{IpAddr, v4, v6, SocketAddr}
use newghost.Net.Socket.{Socket, write_all}
use newghost.Socks5.Request.{ip}
use newghost.Socks5.Request.RoundTrip.{request}
use newghost.Socks5.Associate.Defs.{
  UdpSocket, Os, relay_bind_ip, ip_reply, associate_reply, handle_udp_associate,
}

associate_reply-request :
    (addr : IpAddr) (port : ℕ)
    → associate_reply (record { ip = addr; port = port })
      ≡ request 0x00 0x00 (ip (record { ip = addr; port = port }))
unfolding associate_reply ip_reply
associate_reply-request (v4 a b c d) port = refl
associate_reply-request (v6 n) port = refl

-- Where the operating system names the control connection's address and binds a relay socket to
-- the address that stands for it, and the client takes the answer, the caller gets the relay
-- socket, and the client is sent the version, the success code and the reserved byte, and then the
-- relay address, IPv4 or IPv6, written the way a request writes a target.
pub handle_udp_associate-request :
    (os : Os) (s : Socket) (local relay : SocketAddr) (socket : UdpSocket)
    → os.control_local_addr ≡ inl local
    → os.bind (relay_bind_ip local.ip) ≡ inl (relay, socket)
    → s.writable ≡ true
    → handle_udp_associate os s
      ≡ done
          (record { relay_addr = relay; relay_socket = socket })
          (record s { output = s.output ++ request 0x00 0x00 (ip relay) })
unfolding handle_udp_associate write_all
handle_udp_associate-request os s local relay socket named bound writes =
    rw (named, bound, writes, associate_reply-request relay.ip relay.port) refl
