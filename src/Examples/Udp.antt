-- ===== src/Examples/Udp.antt =====
-- The theorems on src/session/udp_registry.rs and src/session/datagram_manager.rs at concrete inputs.
use newghost.Session.DatagramManager.{
  open_owned, DispatchTarget, DatagramSessionManager, contract_violation, accept_outbound_datagram,
}
use newghost.Session.UdpRegistry.{
  open_association, UdpAssociationRegistry, new_udp, get_association, find_by_endpoints, free_slots,
  association_count,
}
use newghost.Session.DatagramManager.History.{
  udp_step, UdpOperation, open_new, touch_known, ensure, accept, close, udp_run, udp_start,
  udp_run_capacity,
}
use Prim.Native.String.{String}
use newghost.Prelude.{
  ◌↔◌, ◌≤◌, ℕ, zero, suc, ◌+◌, ◌<◌, ◌≡◌, refl, arith, none, some, List, [], ◌∷◌, length,
}
use newghost.Prelude.Outcome.{ok, err}
use newghost.Net.Utf8.{is_utf8}
use newghost.Net.{v4, SocketAddr}
use newghost.Datagram.Contract.{
  DatagramTarget, domain, DatagramEnvelope, payload_too_large, max_datagram_payload_bytes, validate,
}
use newghost.Session.UdpRegistry.Cases.{opened_record}
use newghost.Session.UdpRegistry.Invariant.{new-UdpInv}
use newghost.Session.DatagramManager.Dispatch.{accepted, accept_refuses}
use newghost.Session.DatagramManager.Bridge.{forward_runtime_datagram, selector_target}
use newghost.Session.DatagramManager.Bridge.Delivery.{parse_udp_datagram-forwarded}
use newghost.Session.DatagramSelector.{PathCall, hangs, completes}
use newghost.Datagram.Relay.{
  Parsed, parse_udp_datagram, parse_target, parse_domain_target, check_contract,
}

abbrev relay : SocketAddr
relay = record { ip = v4 127 0 0 1; port = 9_000 }

abbrev client : SocketAddr
client = record { ip = v4 127 0 0 1; port = 5_000 }

abbrev takes_all : DispatchTarget
takes_all log envelope = none

abbrev dns : DatagramTarget
dns = domain (97 ∷ []) 53

abbrev udp_calls : List UdpOperation
udp_calls =
    open_new relay client 0
    ∷ open_new relay client 1
    ∷ touch_known 2 1
    ∷ ensure relay client 1
    ∷ accept relay client dns (1 ∷ []) 2
    ∷ close 5
    ∷ []

abbrev after_calls : UdpAssociationRegistry
after_calls = (udp_run takes_all takes_all (udp_start 4) udp_calls).registry

udp_run_capacity_example : free_slots after_calls + association_count after_calls ≡ 4
udp_run_capacity_example = udp_run_capacity takes_all takes_all 4 udp_calls

-- Two openings for the same endpoints, both behind a search that found nothing: both stay open.
abbrev after_race : UdpAssociationRegistry
after_race =
    (udp_run takes_all takes_all (udp_start 4)
      (open_new relay client 1 ∷ open_new relay client 2 ∷ [])).registry

race_opens_two :
    (get_association 1 after_race ≡ some (opened_record relay client 1))
    × (get_association 2 after_race ≡ some (opened_record relay client 2))
unfolding udp_run udp_step get_association new_udp open_association open_owned
race_opens_two = (refl, refl)

free_room :
    find_by_endpoints relay client (udp_start 4).registry ≡ none
    → 0 < free_slots (udp_start 4).registry
unfolding free_slots new_udp
free_room absent = omega arith

-- A packet for the name "a", port 53, with one byte.
abbrev packet : List ℕ
packet = 0 ∷ 0 ∷ 0 ∷ 3 ∷ 1 ∷ 97 ∷ 0 ∷ 53 ∷ 1 ∷ []

read_packet : parse_udp_datagram client client packet 0 ≡ ok (accepted 0 client dns (1 ∷ []))
unfolding parse_udp_datagram is_utf8 parse_target parse_domain_target check_contract validate
read_packet = refl

-- Any text of a number does here.
abbrev shown : ℕ → String
shown n = "1"

-- A path that hangs on the first envelope that it is given and carries the others in 40.
abbrev hanging_first : List DatagramEnvelope → DatagramEnvelope → PathCall
hanging_first [] envelope = hangs
hanging_first (sent ∷ log) envelope = completes 40

abbrev forwarded : Parsed (Unit {0}) × DatagramSessionManager
forwarded =
    forward_runtime_datagram shown (selector_target shown 100 hanging_first) relay client dns
      (1 ∷ []) 7 (udp_start 4)

parse_udp_datagram-forwarded_example :
    (id : ℕ) × (forwarded.1.outbound_log ≡ accepted id client dns (1 ∷ []) ∷ [])
    × (get_association id forwarded.1.registry ≡ some (opened_record relay client 7))
    × ((forwarded.0 ≡ ok tt) ↔ ((d : ℕ) × (hangs ≡ completes d) × (d ≤ 100)))
parse_udp_datagram-forwarded_example =
    parse_udp_datagram-forwarded shown 100 hanging_first relay client client packet 0
      (accepted 0 client dns (1 ∷ [])) 7 (udp_start 4) (new-UdpInv 4) free_room read_packet

-- A list of `n` zeros before another.
abbrev zeros : ℕ → List ℕ → List ℕ
zeros zero rest = rest
zeros (suc n) rest = zeros n (0 ∷ rest)

length-zeros : (n : ℕ) (rest : List ℕ) → length (zeros n rest) ≡ n + length rest
length-zeros zero rest = omega arith
length-zeros (suc n) rest = omega (arith, length-zeros n (0 ∷ rest))

large : List ℕ
large = zeros 65_508 []

large-lt : max_datagram_payload_bytes < length large
unfolding large
large-lt = omega (arith, length-zeros 65_508 [])

accept_refuses_example :
    (id : ℕ) × ((accept_outbound_datagram takes_all relay client dns large 7 (udp_start 4)).0
      ≡ err (contract_violation payload_too_large))
    × ((accept_outbound_datagram takes_all relay client dns large 7 (udp_start 4)).1.outbound_log
        ≡ [])
    × (get_association id
          (accept_outbound_datagram takes_all relay client dns large 7 (udp_start 4)).1.registry
        ≡ some (opened_record relay client 7))
accept_refuses_example =
    accept_refuses takes_all relay client dns large 7 (udp_start 4) (new-UdpInv 4) free_room
      large-lt
