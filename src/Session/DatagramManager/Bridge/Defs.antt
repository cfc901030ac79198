-- ===== src/Session/DatagramManager/Bridge/Defs.antt =====
-- src/session/datagram_manager.rs: `DatagramRuntimeBridge`, which hands the manager what the relay
-- of a SOCKS5 client reads, and `DatagramSelectorDispatch`, its outbound target, with the texts of the
-- errors. `shown` is the text of a number (Display of std), and `path` answers an envelope, given what
-- it was sent before.
use Prim.Native.String.{String, ◌++◌}
use newghost.Prelude.{ℕ, Option, none, some, true, List}
use newghost.Prelude.Outcome.{Outcome, ok, err, panic}
use newghost.Time.{Instant, Duration}
use newghost.Net.{SocketAddr}
use newghost.Datagram.Contract.{DatagramTarget, DatagramEnvelope}
use newghost.Datagram.Relay.{UdpAssociateError, io, datagram_contract, Parsed}
use newghost.Session.DatagramSelector.{
  DatagramTransportSelectError, cancelled, wss_timeout, wss_failed, DatagramTransportResolution,
  PathCall, Interruption, emit_outbound_datagram,
}
use newghost.Session.DatagramManager.Defs.{
  DatagramSessionError, association_limit_reached, association_not_found, contract_violation,
  dispatch_failed, DispatchTarget, DatagramSessionManager, Answer, accept_outbound_datagram,
}

pub data DatagramSelectorDispatchError : Type 0 where
  transport_selection_failed : DatagramTransportSelectError → DatagramSelectorDispatchError

-- `Display` of DatagramTransportSelectError.
unfoldable pub select_error_text : (ℕ → String) → DatagramTransportSelectError → String
select_error_text shown cancelled = "datagram transport selection cancelled"
select_error_text shown (wss_timeout millis) =
    "wss-backed datagram path timed out after " ++ (shown millis ++ "ms")
select_error_text shown (wss_failed text) = "wss-backed datagram path failed: " ++ text

-- `Display` of DatagramSelectorDispatchError.
unfoldable pub dispatch_error_text : (ℕ → String) → DatagramSelectorDispatchError → String
unfolding select_error_text
dispatch_error_text shown (transport_selection_failed inner) =
    "datagram transport selection failed: " ++ select_error_text shown inner

-- A token that nobody cancels: `CancellationToken::new()`.
abbrev pub fresh_token : Interruption
fresh_token = record { cancel_at = none; prefers_cancel = λ t. true }

abbrev pub selection_answer :
    Outcome DatagramTransportSelectError DatagramTransportResolution
    → Outcome DatagramSelectorDispatchError (Unit {0})
selection_answer (ok resolved) = ok tt
selection_answer (err e) = err (transport_selection_failed e)
selection_answer panic = panic

unfoldable pub dispatch :
    Duration → PathCall → DatagramEnvelope → Outcome DatagramSelectorDispatchError (Unit {0})
unfolding emit_outbound_datagram
dispatch timeout call envelope =
    selection_answer (emit_outbound_datagram timeout fresh_token call envelope).0

abbrev pub failure_text :
    (ℕ → String) → Outcome DatagramSelectorDispatchError (Unit {0}) → Option String
failure_text shown (ok u) = none
failure_text shown (err e) = some (dispatch_error_text shown e)
failure_text shown panic = none

-- The selector as the manager's outbound target, with the `to_string` of its error; a
-- panic, which does not occur, has none.
unfoldable pub selector_target :
    (ℕ → String) → Duration → (List DatagramEnvelope → DatagramEnvelope → PathCall) → DispatchTarget
unfolding dispatch dispatch_error_text
selector_target shown timeout path log envelope =
    failure_text shown (dispatch timeout (path log envelope) envelope)

unfoldable pub map_runtime_bridge_error : (ℕ → String) → DatagramSessionError → UdpAssociateError
map_runtime_bridge_error shown (contract_violation inner) = datagram_contract inner
map_runtime_bridge_error shown association_limit_reached = io "udp association limit reached"
map_runtime_bridge_error shown (association_not_found id) =
    io ("udp association not found: " ++ shown id)
map_runtime_bridge_error shown (dispatch_failed message) = io message

-- `.map(|_| ()).map_err(map_runtime_bridge_error)`
abbrev pub bridged :
    (ℕ → String) → Answer DatagramEnvelope → Parsed (Unit {0}) × DatagramSessionManager
bridged shown (ok envelope, m) = (ok tt, m)
bridged shown (err e, m) = (err (map_runtime_bridge_error shown e), m)
bridged shown (panic, m) = (panic, m)

unfoldable pub forward_runtime_datagram :
    (ℕ → String)
    → DispatchTarget
    → SocketAddr
    → SocketAddr
    → DatagramTarget
    → List ℕ
    → Instant
    → DatagramSessionManager
    → Parsed (Unit {0}) × DatagramSessionManager
unfolding accept_outbound_datagram
forward_runtime_datagram shown outbound_target relay client target payload now m =
    bridged shown (accept_outbound_datagram outbound_target relay client target payload now m)
