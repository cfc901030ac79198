-- ===== src/Datagram/Relay/Safety.antt =====
-- The relay packet parser of src/socks5/udp_associate.rs: no panic, and what it lets through.
use newghost.Prelude.{
  ℕ, ◌+◌, ◌≤◌, ◌≡◌, ◌≢◌, refl, subst, sym, ap, ◌∙◌, arith, not, ◌||◌, List, length, ltb, ◌==◌,
}
use newghost.Prelude.Outcome.{
  Outcome, ok, err, panic, ◌>>=◌, ◌>>◌, reject_if, ok_or, index, slice, >>=-ne-panic, >>=-eq-ok,
  reject_if-ne-panic, ok_or-ne-panic, reject_if-le, index-ne-panic, slice-ne-panic,
}
use newghost.Net.{SocketAddr, addr_eq, addr_eq_iff}
use newghost.Net.Utf8.{from_utf8}
use newghost.Datagram.Contract.{DatagramTarget, DatagramEnvelope, check_target, validate}
use newghost.Datagram.Frame.{read_u16}
use newghost.Datagram.Frame.Safety.{read_u16-ne-panic}
use newghost.Datagram.Relay.Defs.{
  UdpAssociateError, invalid_reserved_field, unsupported_fragmentation, foreign_source, slice_from,
  check_contract, parse_ip_target, parse_domain_target, parse_target, parse_udp_datagram,
}

-- The offset that an arm returns lies within the packet.
abbrev Within : List ℕ → Outcome UdpAssociateError (DatagramTarget × ℕ) → Type 0
Within packet (ok (target, offset)) = offset ≤ length packet
Within packet (err e) = Unit {0}
Within packet panic = ⊥

>>=-Within :
    {A : Type 0} (packet : List ℕ) (m : Outcome UdpAssociateError A)
    (f : A → Outcome UdpAssociateError (DatagramTarget × ℕ))
    → m ≢ panic
    → ((a : A) → m ≡ ok a → Within packet (f a))
    → Within packet (m >>= f)
>>=-Within packet (ok a) f safe rest = rest a refl
>>=-Within packet (err e) f safe rest = tt
>>=-Within packet panic f safe rest = safe refl

parse_ip_target-Within : (packet : List ℕ) → Within packet (parse_ip_target packet)
unfolding parse_ip_target
parse_ip_target-Within packet =
    >>=-Within packet (reject_if _ _) _ (reject_if-ne-panic _ _) (λ _ fits.
      let long = reject_if-le (length packet) 10 _ fits in
      >>=-Within packet (index packet 4) _ (index-ne-panic packet 4 (omega (arith, long))) (λ _ _.
        >>=-Within packet (index packet 5) _ (index-ne-panic packet 5 (omega (arith, long))) (λ _ _.
          >>=-Within packet (index packet 6) _ (index-ne-panic packet 6 (omega (arith, long)))
            (λ _ _.
              >>=-Within packet (index packet 7) _ (index-ne-panic packet 7 (omega (arith, long)))
                (λ _ _.
                  >>=-Within packet (read_u16 packet 8) _
                    (read_u16-ne-panic packet 8 (omega (arith, long))) (λ _ _. long))))))

parse_domain_target-Within : (packet : List ℕ) → Within packet (parse_domain_target packet)
unfolding parse_domain_target
parse_domain_target-Within packet =
    >>=-Within packet (reject_if _ _) _ (reject_if-ne-panic _ _) (λ _ fits.
      let head = reject_if-le (length packet) 5 _ fits in
      >>=-Within packet (index packet 4) _ (index-ne-panic packet 4 (omega (arith, head))) (λ n _.
        >>=-Within packet (reject_if _ _) _ (reject_if-ne-panic _ _) (λ _ fits'.
          let long = reject_if-le (length packet) (5 + n + 2) _ fits' in
          >>=-Within packet (slice packet 5 (5 + n)) _
            (slice-ne-panic packet 5 (5 + n) (omega arith) (omega (arith, long)))
            (λ bytes _. >>=-Within packet (ok_or (from_utf8 bytes) _) _ (ok_or-ne-panic _ _) (λ _ _.
              >>=-Within packet (read_u16 packet (5 + n)) _
                (read_u16-ne-panic packet (5 + n) (omega (arith, long))) (λ _ _. long))))))

parse_target-Within : (packet : List ℕ) (atyp : ℕ) → Within packet (parse_target packet atyp)
unfolding parse_target
parse_target-Within packet atyp =
    ground (arith, parse_ip_target-Within packet, parse_domain_target-Within packet)

check_contract-ne-panic : (envelope : DatagramEnvelope) → check_contract envelope ≢ panic
unfolding check_contract validate check_target
check_contract-ne-panic envelope = ground arith

slice_from-ne-panic :
    (packet : List ℕ) (a : ℕ)
    → a ≤ length packet
    → slice_from {E = UdpAssociateError} packet a ≢ panic
slice_from-ne-panic packet a h = ground arith

Within-le :
    (packet : List ℕ) {m : Outcome UdpAssociateError (DatagramTarget × ℕ)}
    (found : DatagramTarget × ℕ)
    → Within packet m
    → m ≡ ok found
    → found.1 ≤ length packet
Within-le packet found w e = subst (Within packet) e w

Within-ne-panic :
    (packet : List ℕ) (m : Outcome UdpAssociateError (DatagramTarget × ℕ))
    → Within packet m
    → m ≢ panic
Within-ne-panic packet m w e = subst (Within packet) e w

finish-ne-panic : (envelope : DatagramEnvelope) → (check_contract envelope >> ok envelope) ≢ panic
finish-ne-panic envelope =
    >>=-ne-panic (check_contract envelope) (λ _. ok envelope) (check_contract-ne-panic envelope)
      (λ _ _. λ p. cc p)

-- Whatever bytes come in, from whomever, the parser returns an envelope or an error: no index and
-- no slice of it is out of bounds.
pub parse_udp_datagram-ne-panic :
    (source expected_source : SocketAddr) (packet : List ℕ) (id : ℕ)
    → parse_udp_datagram source expected_source packet id ≢ panic
unfolding parse_udp_datagram
parse_udp_datagram-ne-panic source expected_source packet id =
    >>=-ne-panic
      (reject_if (not (addr_eq source expected_source)) (foreign_source expected_source source)) _
      (reject_if-ne-panic _ _)
      (λ _ _.
        >>=-ne-panic (reject_if (ltb (length packet) 4) invalid_reserved_field) _
          (reject_if-ne-panic _ _)
          (λ _ fits.
            let long = reject_if-le (length packet) 4 _ fits in
            >>=-ne-panic (index packet 0) _ (index-ne-panic packet 0 (omega (arith, long)))
              (λ reserved _.
                >>=-ne-panic (index packet 1) _ (index-ne-panic packet 1 (omega (arith, long)))
                  (λ reserved' _.
                    >>=-ne-panic
                      (reject_if (not (reserved == 0x00) || not (reserved' == 0x00))
                        invalid_reserved_field)
                      _ (reject_if-ne-panic _ _)
                      (λ _ _.
                        >>=-ne-panic (index packet 2) _
                          (index-ne-panic packet 2 (omega (arith, long)))
                          (λ fragment _.
                            >>=-ne-panic
                              (reject_if (not (fragment == 0x00))
                                (unsupported_fragmentation fragment))
                              _ (reject_if-ne-panic _ _)
                              (λ _ _.
                                >>=-ne-panic (index packet 3) _
                                  (index-ne-panic packet 3 (omega (arith, long)))
                                  (λ atyp _.
                                    let w = parse_target-Within packet atyp in
                                    >>=-ne-panic (parse_target packet atyp) _
                                      (Within-ne-panic packet _ w)
                                      (λ found e.
                                        >>=-ne-panic (slice_from packet found.1) _
                                          (slice_from-ne-panic packet found.1
                                            (Within-le packet found w e))
                                          (λ payload _. finish-ne-panic (record {
                                            association_id = id;
                                            relay_client_addr = source;
                                            target = found.0;
                                            payload = payload;
                                          })))))))))))

check_contract-validate :
    (envelope : DatagramEnvelope) {u : Unit {0}}
    → check_contract envelope ≡ ok u
    → validate envelope ≡ ok tt
unfolding check_contract validate check_target
check_contract-validate envelope h = ground arith

known_source :
    (source expected : SocketAddr) (e : UdpAssociateError) {u : Unit {0}}
    → reject_if (not (addr_eq source expected)) e ≡ ok u
    → source ≡ expected
known_source source expected e h = (addr_eq_iff source expected).0 (ground (arith, h))

-- An envelope that the parser lets through comes from the expected client, carries the identifier
-- and the address of its association, and meets the datagram contract.
pub parse_udp_datagram_accepts :
    (source expected_source : SocketAddr) (packet : List ℕ) (id : ℕ) (envelope : DatagramEnvelope)
    → parse_udp_datagram source expected_source packet id ≡ ok envelope
    → (source ≡ expected_source)
      × (envelope.relay_client_addr ≡ expected_source)
      × (envelope.association_id ≡ id)
      × (validate envelope ≡ ok tt)
unfolding parse_udp_datagram
parse_udp_datagram_accepts source expected_source packet id envelope h =
    let (_, known, h1) = >>=-eq-ok (reject_if (not (addr_eq source expected_source)) _) _ h in
    let (_, _, h2) = >>=-eq-ok (reject_if (ltb (length packet) 4) _) _ h1 in
    let (reserved, _, h3) = >>=-eq-ok (index packet 0) _ h2 in
    let (reserved', _, h4) = >>=-eq-ok (index packet 1) _ h3 in
    let (_, _, h5) =
      >>=-eq-ok
        (reject_if (not (reserved == 0x00) || not (reserved' == 0x00)) invalid_reserved_field) _
        h4 in
    let (fragment, _, h6) = >>=-eq-ok (index packet 2) _ h5 in
    let (_, _, h7) =
      >>=-eq-ok (reject_if (not (fragment == 0x00)) (unsupported_fragmentation fragment)) _ h6 in
    let (atyp, _, h8) = >>=-eq-ok (index packet 3) _ h7 in
    let (found, _, h9) = >>=-eq-ok (parse_target packet atyp) _ h8 in
    let (payload, _, h10) = >>=-eq-ok (slice_from packet found.1) _ h9 in
    let made : DatagramEnvelope = record {
      association_id = id;
      relay_client_addr = source;
      target = found.0;
      payload = payload;
    } in
    let (_, valid, h11) = >>=-eq-ok (check_contract made) (λ _. ok made) h10 in
    let same : source ≡ expected_source = known_source source expected_source _ known in
    let fields : made ≡ envelope = cc h11 in
    (
      same,
      ap (λ e. e.relay_client_addr) (sym fields) ∙ same,
      ap (λ e. e.association_id) (sym fields),
      subst (λ e. validate e ≡ ok tt) fields (check_contract-validate made valid),
    )
