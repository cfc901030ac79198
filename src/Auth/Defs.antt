-- ===== src/Auth/Defs.antt =====
-- src/auth/mod.rs. `String::from_utf8_lossy` is a function of the section: it keeps a text that is
-- UTF-8, and puts a replacement character into any other.
use newghost.Prelude.{
  ℕ, ◌≡◌, Bool, true, false, ◌&&◌, not, List, [], ◌∷◌, ◌++◌, ◌==◌, if◌then◌else◌,
}
use newghost.Prelude.Outcome.{Outcome, ok, err}
use newghost.Net.Utf8.{is_utf8}
use newghost.Net.Blank.{is_blank}
use newghost.Obs.Redact.{redact_secret}

abbrev pub bytes_eq : List ℕ → List ℕ → Bool
bytes_eq [] [] = true
bytes_eq [] (b ∷ bs) = false
bytes_eq (a ∷ xs) [] = false
bytes_eq (a ∷ xs) (b ∷ bs) = let rest = bytes_eq xs bs in if a == b then rest else false

-- `text.contains('\u{fffd}')`
abbrev pub has_replacement : List ℕ → Bool
has_replacement [] = false
has_replacement (a ∷ []) = false
has_replacement (a ∷ b ∷ []) = false
has_replacement (a ∷ b ∷ c ∷ cs) =
    let rest = has_replacement (b ∷ c ∷ cs) in
    if a == 0xef && b == 0xbf && c == 0xbd then true else rest

pub record Lossy : Type 0 where
  pub from_utf8_lossy : List ℕ → List ℕ
  pub lossy_keeps : (bytes : List ℕ) → is_utf8 bytes ≡ true → from_utf8_lossy bytes ≡ bytes
  pub lossy_marks :
      (bytes : List ℕ) → is_utf8 bytes ≡ false → has_replacement (from_utf8_lossy bytes) ≡ true

pub record AuthPolicy : Type 0 where
  pub expected_token : List ℕ

pub record HandshakeMetadata : Type 0 where
  pub credentials : List ℕ
  pub peer_label : List ℕ

pub data Permissions : Type 0 where
  tunnel_proxy : Permissions

-- The label is the peer's behind the word `peer:`.
pub record ValidatedIdentity : Type 0 where
  pub label : List ℕ
  pub permissions : Permissions

-- `peer:`
abbrev peer_prefix : List ℕ
peer_prefix = 112 ∷ 101 ∷ 101 ∷ 114 ∷ 58 ∷ []

pub data RejectReason : Type 0 where
  missing_credential invalid_credential empty_peer_label : RejectReason

-- The details that a rejection can have.
pub data RedactedDetail : Type 0 where
  peer_label_missing credential_missing : RedactedDetail
  credential : List ℕ → RedactedDetail

pub record AuthRejection : Type 0 where
  pub reason : RejectReason
  pub redacted_detail : RedactedDetail

pub data AuthDecision : Type 0 where
  allow : ValidatedIdentity → AuthDecision
  reject : AuthRejection → AuthDecision

pub data AuthPolicyError : Type 0 where
  empty_expected_token : AuthPolicyError

unfoldable pub from_config : List ℕ → Outcome AuthPolicyError AuthPolicy
from_config expected_token =
    if is_blank expected_token
    then err empty_expected_token
    else ok (record { expected_token = expected_token })

module _ (lossy : Lossy) where
  unfoldable pub check_token : AuthPolicy → HandshakeMetadata → AuthDecision
  unfolding redact_secret
  check_token policy metadata =
      let presented_token = lossy.from_utf8_lossy metadata.credentials in
      if not (bytes_eq presented_token policy.expected_token)
      then reject (record {
        reason = invalid_credential;
        redacted_detail = credential (redact_secret presented_token);
      })
      else allow (record { label = peer_prefix ++ metadata.peer_label; permissions = tunnel_proxy })

  unfoldable pub validate_handshake : AuthPolicy → HandshakeMetadata → AuthDecision
  unfolding check_token
  validate_handshake policy metadata =
      if is_blank metadata.peer_label
      then reject (record { reason = empty_peer_label; redacted_detail = peer_label_missing })
      else if bytes_eq metadata.credentials []
      then reject (record { reason = missing_credential; redacted_detail = credential_missing })
      else check_token policy metadata
