-- ===== src/Net/Socket.antt =====
-- A connected byte stream, `tokio::net::TcpStream`, seen from its owner: the bytes that the peer
-- sends before it closes its half, the bytes that were written, whether the peer takes writes, whether
-- a shutdown of the writing half works, and whether one did. A write that fails sends nothing.
use newghost.Prelude.{
  ℕ, ◌≡◌, refl, ap, arith, Bool, true, false, List, [], ◌++◌, length, take, drop, take-append,
  drop-append, length-append, leb, ◌==◌, ◌∷◌, if◌then◌else◌, get_elem?, none, some,
}
use newghost.Prelude.Program.{Program, done, failed}

pub record Socket : Type 0 where
  pub input : List ℕ
  pub output : List ℕ
  pub writable : Bool
  pub closable : Bool
  pub is_shut : Bool

-- `read_exact` of a buffer of `n` bytes, with the error of a peer that closes before.
unfoldable pub read_exact {ℓ} : {E : Type ℓ} → ℕ → E → Program Socket E (List ℕ)
read_exact n eof s =
    if leb n (length s.input)
    then done (take n s.input) (record s { input = drop n s.input })
    else failed eof (record s { input = [] })

-- `write_all`
unfoldable pub write_all {ℓ} : {E : Type ℓ} → List ℕ → E → Program Socket E (Unit {0})
write_all bytes broken s =
    if s.writable then done tt (record s { output = s.output ++ bytes }) else failed broken s

-- `shutdown` of the stream
unfoldable pub shutdown_stream {ℓ} : {E : Type ℓ} → E → Program Socket E (Unit {0})
shutdown_stream why s = if s.closable then done tt (record s { is_shut = true }) else failed why s

-- `value[i]` in an array whose length is a constant of the source that `i` is below.
abbrev pub octet : List ℕ → ℕ → ℕ
octet bytes i = elim (get_elem? bytes i) [ some b ↦ b | none ↦ 0 ]

-- `Vec::contains`
abbrev pub contains : ℕ → List ℕ → Bool
contains x [] = false
contains x (y ∷ ys) = if x == y then true else contains x ys

pub read_exact-append :
    {E : Type 0} (part rest : List ℕ) (eof : E) (s : Socket)
    → s.input ≡ part ++ rest
    → read_exact (length part) eof s ≡ done part (record s { input = rest })
unfolding read_exact
read_exact-append part rest eof s sent =
    let fits : leb (length part) (length s.input) ≡ true =
      ground (arith, ap length sent, length-append part rest) in
    rw (fits, sent, take-append part rest, drop-append part rest) refl
