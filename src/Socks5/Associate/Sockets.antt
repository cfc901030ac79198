-- ===== src/Socks5/Associate/Sockets.antt =====
-- The relay sockets of src/socks5/udp_associate.rs as a function of the relay address.
use newghost.Prelude.{
  ◌≡◌, sym, ap, ◌∙◌, arith, true, false, none, some, [], ◌∷◌, inl, inr, Bool-cases, if◌then◌else◌,
}
use newghost.Net.{SocketAddr, addr_eq, addr_eq_iff}
use newghost.Socks5.Associate.Defs.{UdpSocket, UdpRelaySocketRegistry, remove, register, socket_for}

key_misses :
    (key addr other : SocketAddr)
    → addr_eq key addr ≡ false
    → addr_eq addr other ≡ true
    → addr_eq key other ≡ false
key_misses key addr other differs same = elim (Bool-cases (addr_eq key other)) [
  | inr isnt ↦ isnt
  | inl is ↦
      let path : key ≡ addr =
        (addr_eq_iff key other).0 is ∙ sym ((addr_eq_iff addr other).0 same) in
      absurd (cc ((addr_eq_iff key addr).1 path, differs))
]

pub socket_for-remove :
    (addr other : SocketAddr) (sockets : UdpRelaySocketRegistry)
    → socket_for other (remove addr sockets)
      ≡ (if addr_eq addr other then none else socket_for other sockets)
unfolding socket_for remove
socket_for-remove addr other [] = ground arith
socket_for-remove addr other ((key, socket) ∷ sockets) =
    let rest = socket_for-remove addr other sockets in
    elim (Bool-cases (addr_eq key addr)) [
      | inl is ↦
          rw (is, rest, ap (λ k. addr_eq k other) ((addr_eq_iff key addr).0 is)) (ground arith)
      | inr isnt ↦ rw (isnt, rest) (ground (arith, key_misses key addr other isnt))
    ]

pub socket_for-register :
    (addr : SocketAddr) (socket : UdpSocket) (other : SocketAddr) (sockets : UdpRelaySocketRegistry)
    → socket_for other (register addr socket sockets)
      ≡ (if addr_eq addr other then some socket else socket_for other sockets)
unfolding register socket_for
socket_for-register addr socket other sockets = ground (arith, socket_for-remove addr other sockets)
