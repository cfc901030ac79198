-- ===== src/Datagram/Frame/Targets.antt =====
-- How the targets of src/wss_gateway/datagram.rs are written and read back.
use newghost.Prelude.{
  ℕ, ◌+◌, ◌^◌, ◌≤◌, ◌<◌, ◌≡◌, refl, arith, ◌∙◌, ap, true, false, some, List, [], ◌∷◌, ◌++◌,
  append_assoc, length, length-append, ltb,
}
use newghost.Prelude.Outcome.{ok, index}
use newghost.Net.{IpAddr, v4, v6}
use newghost.Net.Utf8.{is_utf8, from_utf8}
use newghost.Net.BigEndian.{to_be_bytes}
use newghost.Net.Cursor.{At, At-index, At-next, At-skip, At-slice, At-nth}
use newghost.Datagram.Contract.{DatagramTarget, ip, domain}
use newghost.Datagram.Frame.Defs.{
  WssDatagramError, encode_addr, encode_target, read_u16, decode_v4, decode_domain, decode_target,
}

-- A bounds check that passes.
pub in_bounds : (n len : ℕ) → n ≤ len → ltb len n ≡ false
in_bounds n len h = ground arith

pub read_u16-At :
    {E : Type 0} (frame : List ℕ) (i n : ℕ) (rest : List ℕ)
    → n < 2 ^ 16
    → At frame i (to_be_bytes 2 n ++ rest)
    → read_u16 {E = E} frame i ≡ ok n
read_u16-At frame i n rest h a =
    rw (At-index frame i _ _ a, At-index frame (i + 1) _ _ (At-next frame i _ _ a))
      (ap ok (omega arith))

decode_v4-At :
    (frame : List ℕ) (cursor kind a b c d port : ℕ) (rest : List ℕ)
    → port < 2 ^ 16
    → At frame cursor (kind ∷ a ∷ b ∷ c ∷ d ∷ (to_be_bytes 2 port ++ rest))
    → decode_v4 frame cursor ≡ ok (ip (record { ip = v4 a b c d; port = port }), cursor + 7)
unfolding decode_v4
decode_v4-At frame cursor kind a b c d port rest h at =
    rw
      (
        in_bounds (cursor + 1 + 4 + 2) (length frame) (omega (arith, at.total)),
        At-nth frame cursor (kind ∷ []) a _ at,
        At-nth frame cursor (kind ∷ a ∷ []) b _ at,
        At-nth frame cursor (kind ∷ a ∷ b ∷ []) c _ at,
        At-nth frame cursor (kind ∷ a ∷ b ∷ c ∷ []) d _ at,
        read_u16-At frame (cursor + 5) port rest h
            (At-skip frame cursor (kind ∷ a ∷ b ∷ c ∷ d ∷ []) _ at),
      )
      refl

pub from_utf8_ok : (bytes : List ℕ) → is_utf8 bytes ≡ true → from_utf8 bytes ≡ some bytes
from_utf8_ok bytes h = rw h refl

decode_domain-At :
    (frame : List ℕ) (cursor kind : ℕ) (name : List ℕ) (port : ℕ) (rest : List ℕ)
    → port < 2 ^ 16
    → is_utf8 name ≡ true
    → At frame cursor (kind ∷ length name ∷ (name ++ (to_be_bytes 2 port ++ rest)))
    → decode_domain frame cursor ≡ ok (domain name port, cursor + 2 + length name + 2)
unfolding decode_domain
decode_domain-At frame cursor kind name port rest h utf8 at =
    let at_name = At-skip frame cursor (kind ∷ length name ∷ []) _ at in
    let at_port = At-skip frame (cursor + 2) name _ at_name in
    rw
      (
        in_bounds (cursor + 2) (length frame) (omega (arith, at.total)),
        At-nth frame cursor (kind ∷ []) (length name) _ at,
        in_bounds (cursor + 2 + length name + 2) (length frame) (omega (arith, at_port.total)),
        At-slice frame (cursor + 2) name _ at_name,
        from_utf8_ok name utf8,
        read_u16-At frame (cursor + 2 + length name) port rest h at_port,
      )
      refl

-- What the fields' Rust types promise of the parts of an envelope that a frame carries.
abbrev pub FitsTarget : DatagramTarget → Type 0
FitsTarget (ip addr) = addr.port < 2 ^ 16
FitsTarget (domain name port) = (is_utf8 name ≡ true) × (port < 2 ^ 16)

abbrev pub addr_bytes : IpAddr → ℕ → List ℕ
addr_bytes (v4 a b c d) port = 1 ∷ a ∷ b ∷ c ∷ d ∷ to_be_bytes 2 port
addr_bytes (v6 n) port = []

-- The bytes of a target that has an encoding.
abbrev pub target_bytes : DatagramTarget → List ℕ
target_bytes (ip addr) = addr_bytes addr.ip addr.port
target_bytes (domain name port) = 3 ∷ length name ∷ (name ++ to_be_bytes 2 port)

encode_addr-eq :
    (a : IpAddr) (port : ℕ) (bytes : List ℕ)
    → encode_addr a port ≡ ok bytes
    → bytes ≡ addr_bytes a port
unfolding encode_addr
encode_addr-eq (v4 a b c d) port bytes e = ground arith
encode_addr-eq (v6 n) port bytes e = cc

pub encode_target-eq :
    (target : DatagramTarget) (bytes : List ℕ)
    → encode_target target ≡ ok bytes
    → bytes ≡ target_bytes target
unfolding encode_target
encode_target-eq (ip addr) bytes e = encode_addr-eq addr.ip addr.port bytes e
encode_target-eq (domain name port) bytes e = ground arith

-- The targets that a frame and a relay packet can carry.
abbrev pub IsV4 : IpAddr → Type 0
IsV4 (v4 a b c d) = Unit {0}
IsV4 (v6 n) = ⊥

abbrev pub Encodable : DatagramTarget → Type 0
Encodable (ip addr) = IsV4 addr.ip
Encodable (domain name port) = length name ≤ 255

encode_addr_ok :
    (a : IpAddr) (port : ℕ) → IsV4 a → (bytes : List ℕ) × (encode_addr a port ≡ ok bytes)
unfolding encode_addr
encode_addr_ok (v4 a b c d) port h = (_, refl)
encode_addr_ok (v6 n) port h = absurd h

pub encode_target_ok :
    (target : DatagramTarget)
    → Encodable target
    → (bytes : List ℕ) × (encode_target target ≡ ok bytes)
unfolding encode_target
encode_target_ok (ip addr) h = encode_addr_ok addr.ip addr.port h
encode_target_ok (domain name port) h =
    let fits : ltb 255 (length name) ≡ false = ground (arith, h) in
    (target_bytes (domain name port), rw fits refl)

decode_addr-At :
    (frame : List ℕ) (cursor : ℕ) (a : IpAddr) (port : ℕ) (bytes rest : List ℕ)
    → port < 2 ^ 16
    → encode_addr a port ≡ ok bytes
    → At frame cursor (addr_bytes a port ++ rest)
    → (kind : ℕ) × (index {E = WssDatagramError} frame cursor ≡ ok kind)
      × (decode_target frame cursor kind
          ≡ ok (ip (record { ip = a; port = port }), cursor + length (addr_bytes a port)))
unfolding encode_addr decode_target
decode_addr-At frame cursor (v4 a b c d) port bytes rest h e at =
    (1, At-index frame cursor 1 _ at, decode_v4-At frame cursor 1 a b c d port rest h at)
decode_addr-At frame cursor (v6 n) port bytes rest h e at = cc

-- The bytes of a target are read back, and the position after them is returned.
pub decode_target-At :
    (frame : List ℕ) (cursor : ℕ) (target : DatagramTarget) (bytes rest : List ℕ)
    → FitsTarget target
    → encode_target target ≡ ok bytes
    → At frame cursor (target_bytes target ++ rest)
    → (kind : ℕ) × (index {E = WssDatagramError} frame cursor ≡ ok kind)
      × (decode_target frame cursor kind ≡ ok (target, cursor + length (target_bytes target)))
unfolding encode_target
decode_target-At frame cursor (ip addr) bytes rest h e at =
    decode_addr-At frame cursor addr.ip addr.port bytes rest h e at
decode_target-At frame cursor (domain name port) bytes rest h e at =
    let parted : At frame cursor (3 ∷ length name ∷ (name ++ (to_be_bytes 2 port ++ rest))) =
      rw append_assoc at at in
    (
      3,
      At-index frame cursor 3 _ at,
      unfold decode_target in
          decode_domain-At frame cursor 3 name port rest h.1 h.0 parted
          ∙ ap (λ (n : ℕ). ok (domain name port, n))
              (omega (arith, length-append name (to_be_bytes 2 port))),
    )
