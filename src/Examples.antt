-- ===== src/Examples.antt =====
-- The theorems at concrete inputs, and tests of the definitions.
mod Registries
mod Sessions
mod Selection
mod Bridge
mod Udp
mod Datagrams
mod Emission
mod Packets
mod Ingress
mod Tunnels
mod Settings
