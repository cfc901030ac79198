-- ===== src/Datagram/Frame/Safety.antt =====
-- The decoder of src/wss_gateway/datagram.rs reads no byte outside its input.
use newghost.Prelude.{ℕ, ◌+◌, ◌≤◌, ◌≢◌, arith, List, length}
use newghost.Prelude.Outcome.{
  panic, reject_if, ok_or, index, slice, >>=-ne-panic, reject_if-ne-panic, ok_or-ne-panic,
  reject_if-le, index-ne-panic, slice-ne-panic,
}
use newghost.Net.{IpText}
use newghost.Net.Utf8.{from_utf8}
use newghost.Net.BigEndian.{from_be_bytes}
use newghost.Datagram.Contract.{DatagramTarget}
use newghost.Datagram.Frame.Defs.{
  read_u16, decode_v4, decode_domain, decode_target, decode_relay, decode_datagram,
}

pub read_u16-ne-panic :
    {E : Type 0} (frame : List ℕ) (i : ℕ) → i + 2 ≤ length frame → read_u16 {E = E} frame i ≢ panic
read_u16-ne-panic frame i h =
    >>=-ne-panic (index frame i) _ (index-ne-panic frame i (omega arith)) (λ high _.
      >>=-ne-panic (index frame (i + 1)) _ (index-ne-panic frame (i + 1) (omega arith))
        (λ low _. λ p. cc p))

decode_v4-ne-panic : (frame : List ℕ) (cursor : ℕ) → decode_v4 frame cursor ≢ panic
unfolding decode_v4
decode_v4-ne-panic frame cursor = >>=-ne-panic (reject_if _ _) _ (reject_if-ne-panic _ _) (λ _ fits.
    let long = reject_if-le (length frame) (cursor + 1 + 4 + 2) _ fits in
    >>=-ne-panic (index frame (cursor + 1)) _ (index-ne-panic frame _ (omega (arith, long))) (λ _ _.
      >>=-ne-panic (index frame (cursor + 2)) _ (index-ne-panic frame _ (omega (arith, long)))
        (λ _ _.
          >>=-ne-panic (index frame (cursor + 3)) _ (index-ne-panic frame _ (omega (arith, long)))
            (λ _ _.
              >>=-ne-panic (index frame (cursor + 4)) _
                (index-ne-panic frame _ (omega (arith, long)))
                (λ _ _.
                  >>=-ne-panic (read_u16 frame (cursor + 5)) _
                    (read_u16-ne-panic frame _ (omega (arith, long))) (λ _ _. λ p. cc p))))))

decode_domain-ne-panic : (frame : List ℕ) (cursor : ℕ) → decode_domain frame cursor ≢ panic
unfolding decode_domain
decode_domain-ne-panic frame cursor =
    >>=-ne-panic (reject_if _ _) _ (reject_if-ne-panic _ _) (λ _ fits.
      let head = reject_if-le (length frame) (cursor + 2) _ fits in
      >>=-ne-panic (index frame (cursor + 1)) _ (index-ne-panic frame _ (omega (arith, head)))
        (λ n _. >>=-ne-panic (reject_if _ _) _ (reject_if-ne-panic _ _) (λ _ fits'.
          let long = reject_if-le (length frame) (cursor + 2 + n + 2) _ fits' in
          >>=-ne-panic (slice frame (cursor + 2) (cursor + 2 + n)) _
            (slice-ne-panic frame (cursor + 2) (cursor + 2 + n) (omega arith) (omega (arith, long)))
            (λ bytes _. >>=-ne-panic (ok_or (from_utf8 bytes) _) _ (ok_or-ne-panic _ _) (λ _ _.
              >>=-ne-panic (read_u16 frame (cursor + 2 + n)) _
                (read_u16-ne-panic frame _ (omega (arith, long))) (λ _ _. λ p. cc p))))))

decode_target-ne-panic :
    (frame : List ℕ) (cursor kind : ℕ) → decode_target frame cursor kind ≢ panic
unfolding decode_target
decode_target-ne-panic frame cursor kind =
    ground (arith, decode_v4-ne-panic frame cursor, decode_domain-ne-panic frame cursor)

module _ (text : IpText) where
  decode_relay-ne-panic :
      (frame : List ℕ) (id : ℕ) (target : DatagramTarget) (cursor : ℕ)
      → decode_relay text frame id target cursor ≢ panic
  unfolding decode_relay
  decode_relay-ne-panic frame id target cursor =
      >>=-ne-panic (reject_if _ _) _ (reject_if-ne-panic _ _) (λ _ fits.
        let head = reject_if-le (length frame) (cursor + 2) _ fits in
        >>=-ne-panic (read_u16 frame cursor) _ (read_u16-ne-panic frame _ head) (λ n _.
          >>=-ne-panic (reject_if _ _) _ (reject_if-ne-panic _ _) (λ _ fits'.
            let long = reject_if-le (length frame) (cursor + 2 + n + 2 + 4) _ fits' in
            >>=-ne-panic (slice frame (cursor + 2) (cursor + 2 + n)) _
              (slice-ne-panic frame (cursor + 2) (cursor + 2 + n) (omega arith)
                (omega (arith, long)))
              (λ bytes _.
                >>=-ne-panic (ok_or (from_utf8 bytes) _) _ (ok_or-ne-panic _ _) (λ written _.
                  >>=-ne-panic (ok_or (text.parse written) _) _ (ok_or-ne-panic _ _) (λ _ _.
                    >>=-ne-panic (read_u16 frame (cursor + 2 + n)) _
                      (read_u16-ne-panic frame _ (omega (arith, long)))
                      (λ _ _.
                        >>=-ne-panic (slice frame (cursor + 2 + n + 2) (cursor + 2 + n + 2 + 4)) _
                          (slice-ne-panic frame (cursor + 2 + n + 2) (cursor + 2 + n + 2 + 4)
                            (omega arith) (omega (arith, long)))
                          (λ size _.
                            >>=-ne-panic (reject_if _ _) _ (reject_if-ne-panic _ _) (λ _ fits''.
                              >>=-ne-panic
                                (slice frame (cursor + 2 + n + 2 + 4)
                                  (cursor + 2 + n + 2 + 4 + from_be_bytes size))
                                _
                                (slice-ne-panic frame (cursor + 2 + n + 2 + 4)
                                  (cursor + 2 + n + 2 + 4 + from_be_bytes size) (omega arith)
                                  (reject_if-le (length frame)
                                    (cursor + 2 + n + 2 + 4 + from_be_bytes size) _ fits''))
                                (λ _ _. λ p. cc p))))))))))

  -- Whatever bytes come in, the decoder returns an envelope or an error: no index and no slice of
  -- it is out of bounds.
  pub decode_datagram-ne-panic : (frame : List ℕ) → decode_datagram text frame ≢ panic
  unfolding decode_datagram
  decode_datagram-ne-panic frame =
      >>=-ne-panic (reject_if _ _) _ (reject_if-ne-panic _ _) (λ _ fits.
        let long = reject_if-le (length frame) (1 + 8 + 1) _ fits in
        >>=-ne-panic (index frame 0) _ (index-ne-panic frame _ (omega (arith, long))) (λ version _.
          >>=-ne-panic (reject_if _ _) _ (reject_if-ne-panic _ _) (λ _ _.
            >>=-ne-panic (slice frame 1 9) _
              (slice-ne-panic frame 1 9 (omega arith) (omega (arith, long)))
              (λ id _.
                >>=-ne-panic (index frame 9) _ (index-ne-panic frame _ (omega (arith, long)))
                  (λ kind _.
                    >>=-ne-panic (decode_target frame 9 kind) _
                      (decode_target-ne-panic frame 9 kind)
                      (λ found _.
                        decode_relay-ne-panic frame (from_be_bytes id) found.0 found.1))))))
