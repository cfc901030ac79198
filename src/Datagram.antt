-- ===== src/Datagram.antt =====
-- The UDP datagrams that the proxy carries: their contract, their WSS frames and their SOCKS5 relay
-- packets.
pub mod Contract
pub mod Frame
pub mod Relay
