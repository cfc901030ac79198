-- ===== src/Gateway/Datagrams/Loop.antt =====
-- What the datagram loop of src/wss_gateway/mod.rs sends to targets.
use Prim.Native.String.{String}
use newghost.Prelude.{◌≡◌, List, [], ◌∷◌}
use newghost.Datagram.Contract.{DatagramAssociationId}
use newghost.ProxyBridge.UdpRelay.{UdpRelayRecord}

abbrev pub AllOf : DatagramAssociationId → List UdpRelayRecord → Type 0
AllOf id [] = Unit {0}
AllOf id (relay ∷ relays) = (relay.association_id ≡ id) × AllOf id relays
