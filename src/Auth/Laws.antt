-- ===== src/Auth/Laws.antt =====
-- Whom the policy of src/auth/mod.rs lets in.
use newghost.Prelude.{
  ℕ, ◌≡◌, ◌↔◌, ap, arith, Bool, true, false, List, [], ◌∷◌, inl, inr, Bool-cases,
}
use newghost.Net.Utf8.{is_utf8}
use newghost.Net.Blank.{is_blank}
use newghost.Auth.Defs.{
  bytes_eq, has_replacement, Lossy, AuthPolicy, HandshakeMetadata, AuthDecision, allow, reject,
  check_token, validate_handshake,
}

pub bytes_eq_iff : (a b : List ℕ) → (bytes_eq a b ≡ true) ↔ (a ≡ b)
bytes_eq_iff [] [] = ground arith
bytes_eq_iff [] (b ∷ bs) = ground arith
bytes_eq_iff (a ∷ xs) [] = ground arith
bytes_eq_iff (a ∷ xs) (b ∷ bs) = ground (arith, bytes_eq_iff xs bs)

abbrev pub allows : AuthDecision → Bool
allows (allow identity) = true
allows (reject rejection) = false

module _ (lossy : Lossy) where
  lossy_token :
      (credentials token : List ℕ)
      → is_utf8 token ≡ true
      → has_replacement token ≡ false
      → (bytes_eq (lossy.from_utf8_lossy credentials) token ≡ true) ↔ (credentials ≡ token)
  lossy_token credentials token text clean = elim (Bool-cases (is_utf8 credentials)) [
    | inl good ↦ rw (lossy.lossy_keeps credentials good) (bytes_eq_iff credentials token)
    | inr bad ↦
        let marked = lossy.lossy_marks credentials bad in
        (
          λ same.
              let e = (bytes_eq_iff (lossy.from_utf8_lossy credentials) token).0 same in
              absurd (cc (ap has_replacement e, marked, clean)),
          λ e. absurd (cc (ap is_utf8 e, bad, text)),
        )
  ]

  -- With a token that is UTF-8 and has no replacement character, a handshake is allowed exactly
  -- where the peer has a label that is not blank and its credential is, byte for byte, the token,
  -- and not empty.
  pub validate_handshake_iff :
      (policy : AuthPolicy) (metadata : HandshakeMetadata)
      → is_utf8 policy.expected_token ≡ true
      → has_replacement policy.expected_token ≡ false
      → (allows (validate_handshake lossy policy metadata) ≡ true) ↔ (
          (is_blank metadata.peer_label ≡ false)
          × (bytes_eq metadata.credentials [] ≡ false)
          × (metadata.credentials ≡ policy.expected_token))
  unfolding validate_handshake check_token
  validate_handshake_iff policy metadata text clean =
      ground (arith, lossy_token metadata.credentials policy.expected_token text clean)
