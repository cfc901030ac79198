-- ===== src/Lib.antt =====
-- newghost: a SOCKS5 proxy whose streams travel over iroh or over WebSocket (WSS), and whose
-- datagrams travel over WSS. This library models its core logic and proves what makes it correct.
--
-- The parts and how they meet. The proxy bridge (src/proxy_bridge/mod.rs) takes an intent of the
-- SOCKS5 front end, registers a session, resolves a stream for it and pumps bytes. The session
-- manager (src/session/mod.rs) owns the sessions: it reserves a slot in the registry
-- (src/session/registry.rs), asks the transport selector (src/session/transport_selector.rs) for a
-- stream, and runs the pure state machine (src/session/state.rs), whose typed effects
-- (src/session/effects.rs) the effect handler (src/session/effect_handler.rs) sends back to the
-- registry. Datagrams come in as relay packets (src/socks5/udp_associate.rs), are owned by
-- associations (src/session/udp_registry.rs, src/session/datagram_manager.rs) and leave as frames
-- (src/wss_gateway/datagram.rs), under one contract (src/transport/datagram_contract.rs). The gateway
-- (src/wss_gateway/mod.rs) carries streams and datagrams over a WebSocket, to a server that admits
-- the client by the policy of src/auth/mod.rs and relays its datagrams (src/proxy_bridge/udp_relay.rs).
--
-- The files.
--   Prelude      tests on native numbers, lists, Outcome (a value, an error or a panic), Program: a
--                fallible computation on the state of a socket, and Logged: one on the log of what
--                it sends
--   Time, Map    instants, and HashMap as an association list with at most one entry for a key
--   Net          std::net addresses, UTF-8, big-endian and decimal integers, white space, positions
--                in a packet, and a connected byte stream
--   Auth, Config src/auth/mod.rs, src/config/mod.rs
--   Obs          src/obs/mod.rs: redact_secret, and record_burst with reset_peak
--   OrigDst      src/udp_origdst/linux.rs: the walk over the control messages; src/udp_origdst/mod.rs:
--                the checks of a recovered datagram and the listener's loop
--   Transport    src/transport/stream.rs and src/transport/adapter_contract.rs
--   Session/Effects, Session/State         src/session/effects.rs, src/session/state.rs
--   Session/Registry     src/session/registry.rs; a SessionHandle (Arc<Mutex<..>>) is an address of
--                        the heap `records`, which outlives the entry of the map; permits are counted
--   Session/Selector     src/session/transport_selector.rs; adapters and token are given by when they
--                        become ready, and each call says at which instant it returned
--   Session/Manager      src/session/mod.rs and src/session/effect_handler.rs
--   Session/UdpRegistry, Session/DatagramManager
--                        src/session/udp_registry.rs, src/session/datagram_manager.rs
--   Session/DatagramSelector               src/session/datagram_transport_selector.rs
--   Socks5/Reply         the error mapping and the reply bytes of src/socks5/mod.rs
--   Socks5/Request, Socks5/Connection      the parser and the handler of a client, of the same file;
--                        NEXT_REQUEST_ID is a field of the state
--   Socks5/Associate     src/socks5/udp_associate.rs: the answer, the relay sockets and their loop
--   ProxyBridge          src/proxy_bridge/mod.rs: process_intent, pump_bidirectional;
--                        ProxyBridge/UdpRelay is src/proxy_bridge/udp_relay.rs, and
--                        ProxyBridge/Target the host and port of an address, of mod.rs again
--   Datagram/Contract, Datagram/Frame, Datagram/Relay
--                        src/transport/datagram_contract.rs, src/wss_gateway/datagram.rs, and the
--                        packets of src/socks5/udp_associate.rs
--   Gateway/WebSocket, Gateway/Requests, Gateway/Handshake
--                        the WebSocket, the text requests and the handshakes of
--                        src/wss_gateway/mod.rs
--   Gateway/EndToEnd     a SOCKS5 client's target up to the parser of the server
--   Gateway/Tunnel, Gateway/Datagrams      its byte tunnel with the end of its tasks, its datagrams
--   Examples             the theorems at concrete inputs
-- In each component Defs holds the model, operation by operation under the source's names where one
-- name has one meaning, and the files beside it are named for what they prove. In Session/Registry
-- mark_no_new_streams and close_streams are `refuse_streams` and `shut_streams`, since the commands
-- of the same names are constructors.
--
-- Bounds. Numbers are natural numbers; an identifier wraps at 2^64 as fetch_add does, a count of
-- streams saturates at 2^32 - 1, and lengths are cut to 16 and 32 bits where the frame writes them.
-- An instant is a natural number of nanoseconds, a duration of the configuration one of seconds or
-- milliseconds, as its variable's name says. The loops go down a list, but for the walk over
-- control messages, whose fuel is the length of the buffer and one more: each message that it passes
-- takes at least eight bytes. A pump whose events end without an end of stream is still waiting,
-- which is `none`.
--
-- Interleaving. Each operation of a registry holds its lock throughout and is one step; histories
-- are lists of such steps in any order. A call of the datagram manager that takes the lock of its
-- registry more than once is given as a whole, as it runs with no other call in between; in its
-- histories the holds of the lock are steps of their own beside the whole calls. While the session manager waits for the selector, and while
-- the bridge waits or pumps, other tasks run as an arbitrary function of the manager.
--
-- What is a parameter: the text of IP addresses (Display and FromStr of std), as the record IpText
-- with the laws that the frames rely on, of which Net/Hex is an instance; the adapters, sockets and
-- dispatch targets, by what they answer; String::from_utf8_lossy, as the record Lossy.
--
-- Not modelled: the listeners and the worker queue of the bridge, which accept and spawn; the TCP, TLS
-- and upgrade steps in front of a WebSocket and the dial of a target (src/wss_gateway/mod.rs,
-- src/iroh_adapter/mod.rs, src/tls/mod.rs), which call libraries; the counters and the tracing of
-- src/obs/mod.rs; the socket calls of src/udp_origdst; and the process itself (src/cli/mod.rs,
-- src/main.rs). The total timeout of a SOCKS5 client is modelled where it can cut a UDP
-- association, not while the request is read. Logging is left out everywhere.
pub mod Prelude
pub mod Time
pub mod Map
pub mod Net
pub mod Auth
pub mod Config
pub mod Obs
pub mod OrigDst
pub mod Transport
pub mod Session
pub mod Socks5
pub mod ProxyBridge
pub mod Datagram
pub mod Gateway
pub mod Examples
