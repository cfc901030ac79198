-- ===== src/Datagram/Contract.antt =====
-- src/transport/datagram_contract.rs: the envelope that all carriers share.
use newghost.Prelude.{
  ℕ, ◌≤◌, ◌≡◌, ◌≢◌, ◌↔◌, arith, List, [], ◌∷◌, length, ltb, Bool-cases, inl, inr,
}
use newghost.Prelude.Outcome.{Outcome, ok, err, ◌>>◌, reject_if}
use newghost.Net.{SocketAddr}

abbrev pub max_datagram_payload_bytes : ℕ
max_datagram_payload_bytes = 65_507

abbrev pub DatagramAssociationId : Type 0
DatagramAssociationId = ℕ

pub data DatagramTarget : Type 0 where
  ip : SocketAddr → DatagramTarget
  domain : List ℕ → ℕ → DatagramTarget

pub record DatagramEnvelope : Type 0 where
  pub association_id : DatagramAssociationId
  pub relay_client_addr : SocketAddr
  pub target : DatagramTarget
  pub payload : List ℕ

pub data DatagramError : Type 0 where
  payload_too_large empty_domain_target : DatagramError

unfoldable pub check_target : DatagramTarget → Outcome DatagramError (Unit {0})
check_target (ip addr) = ok tt
check_target (domain [] port) = err empty_domain_target
check_target (domain (b ∷ bs) port) = ok tt

unfoldable pub validate : DatagramEnvelope → Outcome DatagramError (Unit {0})
unfolding check_target
validate envelope = do
  reject_if (ltb max_datagram_payload_bytes (length envelope.payload)) payload_too_large
  check_target envelope.target

abbrev pub NamesTarget : DatagramTarget → Type 0
NamesTarget (ip addr) = Unit {0}
NamesTarget (domain name port) = name ≢ []

check_target_iff : (target : DatagramTarget) → (check_target target ≡ ok tt) ↔ NamesTarget target
unfolding check_target
check_target_iff (ip addr) = ground arith
check_target_iff (domain [] port) = ground arith
check_target_iff (domain (b ∷ bs) port) = ground arith

-- `validate` accepts exactly the envelopes whose payload fits a UDP packet and whose target, if it
-- is a domain, is not empty.
pub validate_iff :
    (envelope : DatagramEnvelope)
    → (validate envelope ≡ ok tt)
      ↔ ((length envelope.payload ≤ max_datagram_payload_bytes) × NamesTarget envelope.target)
unfolding validate
validate_iff envelope =
    let target = check_target_iff envelope.target in
    elim (Bool-cases (ltb max_datagram_payload_bytes (length envelope.payload))) [
      | inl long ↦ ground (arith, long)
      | inr fits ↦ rw fits ((λ e. (ground (arith, fits), target.0 e)), (λ h. target.1 h.1))
    ]
