-- ===== src/Examples/Emission.antt =====
-- The theorems on src/session/datagram_transport_selector.rs at concrete inputs.
use newghost.Prelude.{◌≤◌, ◌≡◌, refl, true, some, none, []}
use newghost.Time.{Duration}
use newghost.Net.{v4}
use newghost.Datagram.Contract.{ip, DatagramEnvelope}
use newghost.Session.DatagramSelector.{
  completes, Interruption, answer_within, race, carry, resolution, emit_outbound_datagram,
}
use newghost.Session.DatagramSelector.Emission.{emit_outbound_ok}

abbrev ping : DatagramEnvelope
ping = record {
  association_id = 6;
  relay_client_addr = record { ip = v4 127 0 0 1; port = 5_000 };
  target = ip (record { ip = v4 1 1 1 1; port = 53 });
  payload = [];
}

abbrev undisturbed : Interruption
undisturbed = record { cancel_at = none; prefers_cancel = λ t. true }

abbrev cancelled_at_90 : Interruption
cancelled_at_90 = record { cancel_at = some 90; prefers_cancel = λ t. true }

emit_outbound_ok_example :
    (d : Duration) × (completes 40 ≡ completes d)
    × (d ≤ 100)
    × (d ≤ 90)
    × ((resolution 6).association_id ≡ 6)
emit_outbound_ok_example =
    emit_outbound_ok 100 cancelled_at_90 (completes 40) ping 90 (resolution 6) refl
      (unfold emit_outbound_datagram carry race answer_within in refl)
