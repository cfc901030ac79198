-- ===== src/OrigDst/Runtime.antt =====
-- src/udp_origdst/mod.rs: `forward_recovered_datagram`, and the loop of
-- `run_linux_ipv4_listener_until_cancelled` behind the set-up of its socket. What the governed
-- handoff answers to a datagram, given those it got before, is the argument `Handoff`.
use Prim.Native.String.{String}
use newghost.Prelude.{
  ℕ, ◌≤◌, ◌≡◌, ◌⊎◌, refl, ap, subst, append_assoc, ◌∙◌, arith, not, Option, none, some, List, [],
  ◌∷◌, ◌++◌, length, ltb, ◌==◌, ==_iff, if◌then◌else◌, inl, inr,
}
use newghost.Prelude.Outcome.{Outcome, ok, err, panic, Outcome-cases}
use newghost.Net.{SocketAddr}
use newghost.Datagram.Contract.{DatagramTarget, max_datagram_payload_bytes}

pub record RecoveredUdpTuple : Type 0 where
  pub client_source_addr : SocketAddr
  pub helper_listener_addr : SocketAddr
  pub original_target : DatagramTarget
  pub payload_len : ℕ

pub data UdpOrigDstError : Type 0 where
  recovery_failed governed_handoff_failed invalid_recovered_tuple : String → UdpOrigDstError
  payload_length_mismatch : ℕ → ℕ → UdpOrigDstError
  payload_too_large receive_would_block : UdpOrigDstError

-- A call of `forward_recovered_tuple`.
pub record Handed : Type 0 where
  pub tuple : RecoveredUdpTuple
  pub payload : List ℕ

abbrev pub Handoff : Type 0
Handoff = List Handed → Handed → Option UdpOrigDstError

-- The answer, with the datagrams that the handoff was called with.
pub record Forwarding : Type 0 where
  pub answer : Outcome UdpOrigDstError (Unit {0})
  pub calls : List Handed

abbrev answered : Option UdpOrigDstError → Outcome UdpOrigDstError (Unit {0})
answered none = ok tt
answered (some e) = err e

unfoldable pub forward_recovered_datagram : Handoff → Handed → List Handed → Forwarding
forward_recovered_datagram handoff one calls =
    if not (one.tuple.payload_len == length one.payload)
    then record {
      answer = err (payload_length_mismatch one.tuple.payload_len (length one.payload));
      calls = calls;
    }
    else if ltb max_datagram_payload_bytes (length one.payload)
    then record { answer = err payload_too_large; calls = calls }
    else record { answer = answered (handoff calls one); calls = calls ++ one ∷ [] }

-- A round of the loop: the cancellation, or what the receive in its task returned.
pub data Round : Type 0 where
  listener_cancelled : Round
  recovered : Handed → Round
  not_recovered : UdpOrigDstError → Round

-- `none` while the loop waits for its next round.
pub record ListenerEnd : Type 0 where
  pub result : Option (Outcome UdpOrigDstError (Unit {0}))
  pub handed : List Handed

abbrev ends : Outcome UdpOrigDstError (Unit {0}) → List Handed → ListenerEnd
ends result handed = record { result = some result; handed = handed }

unfoldable pub run_listener : Handoff → List Round → List Handed → ListenerEnd
unfolding forward_recovered_datagram
run_listener handoff [] handed = record { result = none; handed = handed }
run_listener handoff (listener_cancelled ∷ rounds) handed = ends (ok tt) handed
run_listener handoff (not_recovered receive_would_block ∷ rounds) handed =
    run_listener handoff rounds handed
run_listener handoff (not_recovered e ∷ rounds) handed = ends (err e) handed
run_listener handoff (recovered one ∷ rounds) handed =
    let forwarded = forward_recovered_datagram handoff one handed in
    elim forwarded.answer [
      | ok done ↦ run_listener handoff rounds forwarded.calls
      | err e ↦ ends (err e) forwarded.calls
      | panic ↦ ends panic forwarded.calls
    ]

abbrev pub AllSound : List Handed → Type 0
AllSound [] = Unit {0}
AllSound (one ∷ handed) =
    ((one.tuple.payload_len ≡ length one.payload)
      × (length one.payload ≤ max_datagram_payload_bytes))
    × AllSound handed

AllSound-append :
    (handed : List Handed) (one : Handed)
    → AllSound handed
    → one.tuple.payload_len ≡ length one.payload
    → length one.payload ≤ max_datagram_payload_bytes
    → AllSound (handed ++ one ∷ [])
AllSound-append [] one all same short = ((same, short), tt)
AllSound-append (first ∷ handed) one all same short =
    (all.0, AllSound-append handed one all.1 same short)

forward-AllSound :
    (handoff : Handoff) (one : Handed) (calls : List Handed)
    → AllSound calls
    → AllSound (forward_recovered_datagram handoff one calls).calls
unfolding forward_recovered_datagram
forward-AllSound handoff one calls all =
    ground (arith, AllSound-append calls one all, ==_iff one.tuple.payload_len (length one.payload))

run_listener-AllSound :
    (handoff : Handoff) (rounds : List Round) (handed : List Handed)
    → AllSound handed
    → AllSound (run_listener handoff rounds handed).handed
unfolding run_listener
run_listener-AllSound handoff [] handed all = all
run_listener-AllSound handoff (listener_cancelled ∷ rounds) handed all = all
run_listener-AllSound handoff (not_recovered receive_would_block ∷ rounds) handed all =
    run_listener-AllSound handoff rounds handed all
run_listener-AllSound handoff (not_recovered _ ∷ rounds) handed all = all
run_listener-AllSound handoff (recovered one ∷ rounds) handed all =
    let next = forward-AllSound handoff one handed all in
    elim (Outcome-cases (forward_recovered_datagram handoff one handed).answer) [
      | inl (done, taken) ↦
          rw (taken, run_listener)
            (run_listener-AllSound handoff rounds
              (forward_recovered_datagram handoff one handed).calls next)
      | inr (inl (e, stopped)) ↦ rw (stopped, run_listener) next
      | inr (inr bad) ↦ rw (bad, run_listener) next
    ]

abbrev pub recovered_of : List Round → List Handed
recovered_of [] = []
recovered_of (recovered one ∷ rounds) = one ∷ recovered_of rounds
recovered_of (_ ∷ rounds) = recovered_of rounds

abbrev pub PrefixOf : List Handed → List Handed → Type 0
PrefixOf xs ys = (rest : List Handed) × (xs ++ rest ≡ ys)

forward_ok_calls :
    (handoff : Handoff) (one : Handed) (calls : List Handed) {u : Unit {0}}
    → (forward_recovered_datagram handoff one calls).answer ≡ ok u
    → (forward_recovered_datagram handoff one calls).calls ≡ calls ++ one ∷ []
unfolding forward_recovered_datagram
forward_ok_calls handoff one calls taken = ground (arith, taken)

forward_calls :
    (handoff : Handoff) (one : Handed) (calls : List Handed)
    → ((forward_recovered_datagram handoff one calls).calls ≡ calls)
      ⊎ ((forward_recovered_datagram handoff one calls).calls ≡ calls ++ one ∷ [])
unfolding forward_recovered_datagram
forward_calls handoff one calls = ground arith

stopped-PrefixOf :
    (one : Handed) (before after : List Handed) (rounds : List Round)
    → (after ≡ before) ⊎ (after ≡ before ++ one ∷ [])
    → PrefixOf after (before ++ one ∷ recovered_of rounds)
stopped-PrefixOf one before after rounds (inl same) =
    (one ∷ recovered_of rounds, ap (λ xs. xs ++ one ∷ recovered_of rounds) same)
stopped-PrefixOf one before after rounds (inr more) = (
  recovered_of rounds,
  ap (λ xs. xs ++ recovered_of rounds) more ∙ append_assoc before (one ∷ []) (recovered_of rounds),
)

run_listener-PrefixOf :
    (handoff : Handoff) (rounds : List Round) (handed : List Handed)
    → PrefixOf (run_listener handoff rounds handed).handed (handed ++ recovered_of rounds)
unfolding run_listener
run_listener-PrefixOf handoff [] handed = ([], refl)
run_listener-PrefixOf handoff (listener_cancelled ∷ rounds) handed = (recovered_of rounds, refl)
run_listener-PrefixOf handoff (not_recovered receive_would_block ∷ rounds) handed =
    run_listener-PrefixOf handoff rounds handed
run_listener-PrefixOf handoff (not_recovered _ ∷ rounds) handed = (recovered_of rounds, refl)
run_listener-PrefixOf handoff (recovered one ∷ rounds) handed =
    let forwarded = forward_recovered_datagram handoff one handed in
    let stopped_here =
      stopped-PrefixOf one handed forwarded.calls rounds (forward_calls handoff one handed) in
    elim (Outcome-cases forwarded.answer) [
      | inl (done, taken) ↦
          rw (taken, run_listener)
            (subst (PrefixOf (run_listener handoff rounds forwarded.calls).handed)
              (ap (λ xs. xs ++ recovered_of rounds) (forward_ok_calls handoff one handed taken)
                ∙ append_assoc handed (one ∷ []) (recovered_of rounds))
              (run_listener-PrefixOf handoff rounds forwarded.calls))
      | inr (inl (e, stopped)) ↦ rw (stopped, run_listener) stopped_here
      | inr (inr bad) ↦ rw (bad, run_listener) stopped_here
    ]

-- Whatever is received, the handoff gets the recovered datagrams in their order and without a gap,
-- from the first to the last one that it gets; each of them has the length that its tuple says, and
-- is not longer than a datagram may be.
pub run_listener_lem :
    (handoff : Handoff) (rounds : List Round)
    → PrefixOf (run_listener handoff rounds []).handed (recovered_of rounds)
      × AllSound (run_listener handoff rounds []).handed
run_listener_lem handoff rounds =
    (run_listener-PrefixOf handoff rounds [], run_listener-AllSound handoff rounds [] tt)
