-- ===== src/OrigDst/Control.antt =====
-- src/udp_origdst/linux.rs: `parse_original_dst_from_msghdr`, the walk over the control messages of
-- a datagram, for a 64-bit little-endian Linux: a header has 16 bytes, its length first, then the
-- level and the type. The memory is the control buffer; a read behind its end, which would be
-- undefined behaviour, is `panic`. An address that wraps is below the present one and ends the walk,
-- like one behind the end.
use newghost.Prelude.{
  ℕ, zero, suc, ◌+◌, ◌-◌, ◌*◌, ◌/◌, ◌%◌, ◌^◌, ◌≤◌, ◌<◌, ◌≡◌, ◌≢◌, ap, arith, Bool, true, false,
  ◌&&◌, ◌||◌, Option, none, some, List, [], ◌∷◌, length, take, drop, ltb, leb, ◌==◌, if◌then◌else◌,
}
use newghost.Prelude.Outcome.{Outcome, ok, err, ◌>>=◌, slice}
use newghost.OrigDst.Runtime.{UdpOrigDstError, recovery_failed}
use newghost.Net.{v4, SocketAddr}
use newghost.Net.BigEndian.{from_be_bytes}
use newghost.Net.Socket.{octet}

-- The messages are shortened.
abbrev control_message_too_short : UdpOrigDstError
control_message_too_short = recovery_failed "control message too short"

abbrev control_message_missing : UdpOrigDstError
control_message_missing = recovery_failed "control message missing"

abbrev pub Recovered : Type 0
Recovered = Outcome UdpOrigDstError SocketAddr

abbrev pub from_le_bytes : List ℕ → ℕ
from_le_bytes [] = 0
from_le_bytes (b ∷ bs) = b + 256 * from_le_bytes bs

-- `cmsg_align`; the sum wraps.
unfoldable pub cmsg_align : ℕ → ℕ
cmsg_align n = (n + 8 - 1) % 2 ^ 64 / 8 * 8

abbrev field : List ℕ → ℕ → ℕ → ℕ
field control at n = from_le_bytes (take n (drop at control))

-- `size_of::<cmsghdr>()`, and `size_of::<sockaddr_in>()`.
abbrev pub cmsghdr_size : ℕ
cmsghdr_size = 16

abbrev pub sockaddr_in_size : ℕ
sockaddr_in_size = 16

-- Behind the family of two bytes: the port and the address, the highest byte first.
unfoldable pub socket_addr_from_sockaddr_in : List ℕ → SocketAddr
socket_addr_from_sockaddr_in bytes = record {
  ip = v4 (octet bytes 4) (octet bytes 5) (octet bytes 6) (octet bytes 7);
  port = from_be_bytes (octet bytes 2 ∷ octet bytes 3 ∷ []);
}

-- `IPPROTO_IP` and `IP_RECVORIGDSTADDR`.
abbrev pub is_original_dst : List ℕ → ℕ → Bool
is_original_dst control at = field control (at + 8) 4 == 0 && field control (at + 12) 4 == 20

unfoldable pub read_original_dst : List ℕ → ℕ → Recovered
unfolding socket_addr_from_sockaddr_in cmsg_align
read_original_dst control at =
    if ltb (field control at 8 - cmsghdr_size) sockaddr_in_size
    then err control_message_too_short
    else slice control (at + cmsg_align cmsghdr_size)
        (at + cmsg_align cmsghdr_size + sockaddr_in_size)
      >>= (λ bytes. ok (socket_addr_from_sockaddr_in bytes))

-- Whether the walk stops in front of the message `step` bytes further on.
abbrev stops_at : List ℕ → ℕ → ℕ → Bool
stops_at control at step = step == 0 || ltb (length control) (at + step)

-- The loop from the message at `at`; it takes one unit of fuel for each message.
unfoldable pub walk : ℕ → List ℕ → ℕ → Option Recovered
unfolding read_original_dst cmsg_align
walk zero control at = none
walk (suc fuel) control at =
    let step = cmsg_align (field control at 8) in
    let rest = walk fuel control (at + step) in
    if ltb (length control) (at + cmsghdr_size)
    then some (err control_message_missing)
    else if is_original_dst control at
    then some (read_original_dst control at)
    else if stops_at control at step
    then some (err control_message_missing)
    else rest

unfoldable pub parse_original_dst_from_msghdr : List ℕ → Option Recovered
unfolding walk
parse_original_dst_from_msghdr control = walk (suc (length control)) control 0

walk-ne-none :
    (fuel : ℕ) (control : List ℕ) (at : ℕ)
    → at ≤ length control
    → length control < at + fuel
    → walk fuel control at ≢ none
unfolding walk
walk-ne-none zero control at inside enough = absurd (omega (arith, inside, enough))
walk-ne-none (suc fuel) control at inside enough =
    let step = cmsg_align (field control at 8) in
    let rest = walk-ne-none fuel control (at + step) in ground (arith, rest, enough)

-- The walk ends: whatever lengths the messages of a buffer claim, one unit of fuel for each byte,
-- and one more, is enough.
pub parse_original_dst_from_msghdr-ne-none :
    (control : List ℕ) → parse_original_dst_from_msghdr control ≢ none
unfolding parse_original_dst_from_msghdr
parse_original_dst_from_msghdr-ne-none control =
    walk-ne-none (suc (length control)) control 0 (omega arith) (omega arith)

-- A message that carries an original destination: the header, the family, the address, and eight
-- bytes of padding.
abbrev pub original_dst_message : ℕ → ℕ → ℕ → ℕ → ℕ → List ℕ → List ℕ
original_dst_message a b c d port rest =
    32
    ∷ 0
    ∷ 0
    ∷ 0
    ∷ 0
    ∷ 0
    ∷ 0
    ∷ 0
    ∷ 0
    ∷ 0
    ∷ 0
    ∷ 0
    ∷ 20
    ∷ 0
    ∷ 0
    ∷ 0
    ∷ 2
    ∷ 0
    ∷ port / 256
    ∷ port % 256
    ∷ a
    ∷ b
    ∷ c
    ∷ d
    ∷ 0
    ∷ 0
    ∷ 0
    ∷ 0
    ∷ 0
    ∷ 0
    ∷ 0
    ∷ 0
    ∷ rest

parse_original_dst_from_msghdr-message :
    (a b c d port : ℕ) (rest : List ℕ)
    → port < 2 ^ 16
    → parse_original_dst_from_msghdr (original_dst_message a b c d port rest)
      ≡ some (ok (record { ip = v4 a b c d; port = port }))
unfolding parse_original_dst_from_msghdr walk read_original_dst socket_addr_from_sockaddr_in
    cmsg_align
parse_original_dst_from_msghdr-message a b c d port rest fits =
    let long : ltb (length (original_dst_message a b c d port rest)) 16 ≡ false = ground arith in
    let whole : leb 32 (length (original_dst_message a b c d port rest)) ≡ true = ground arith in
    rw (long, whole)
      (ap (λ (p : ℕ). some (ok (record { ip = v4 a b c d; port = p }))) (omega (arith, fits)))
