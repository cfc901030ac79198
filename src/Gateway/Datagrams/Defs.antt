-- ===== src/Gateway/Datagrams/Defs.antt =====
-- src/wss_gateway/mod.rs: `emit_datagram` behind the opening of its path;
-- src/wss_gateway/datagram.rs: `send_datagram`.
use Prim.Native.String.{String}
use newghost.Prelude.{ℕ, Bool, Option, none, some, List}
use newghost.Prelude.Outcome.{Outcome, ok, err, panic, ◌>>=◌, ◌>>◌, reject_if}
use newghost.Net.{IpText}
use newghost.Datagram.Contract.{DatagramEnvelope}
use newghost.Datagram.Frame.{send_failed, Decoded, encode_datagram, decode_message}
use newghost.ProxyBridge.UdpRelay.{Relayed}
use newghost.Gateway.WebSocket.{
  Message, binary, said, framing, relaying, WssError, cancelled, datagram_path_failed,
}

abbrev pub OnPath : Type 0 → Type 0
OnPath A = Outcome WssError A

abbrev pub framed : {A : Type 0} → Decoded A → OnPath A
framed (ok a) = ok a
framed (err e) = err (datagram_path_failed (framing e))
framed panic = panic

abbrev pub relayed : {A : Type 0} → Relayed A → OnPath A
relayed (ok a) = ok a
relayed (err e) = err (datagram_path_failed (relaying e))
relayed panic = panic

abbrev pub bytes_of : Message → Option (List ℕ)
bytes_of (binary bytes) = some bytes
bytes_of _ = none

abbrev pub went : Option String → OnPath (Unit {0})
went none = ok tt
went (some e) = err (datagram_path_failed (framing send_failed))

-- What the client's wait for an answer yields: a message, an error, the end, or the time limit.
pub data Awaited : Type 0 where
  answered : Message → Awaited
  failed_wait : String → Awaited
  path_closed timed_out : Awaited

-- The handler of inbound datagrams, with its refusal.
abbrev pub Handler : Type 0
Handler = DatagramEnvelope → Option String

module _ (text_of : IpText) where
  unfoldable pub send_datagram : DatagramEnvelope → Option String → OnPath Message
  unfolding encode_datagram
  send_datagram envelope failure = do
    bytes ← framed (encode_datagram text_of envelope)
    went failure
    ok (binary bytes)

  abbrev handled : Option String → DatagramEnvelope → OnPath (Option DatagramEnvelope)
  handled none inbound = ok (some inbound)
  handled (some e) inbound = err (datagram_path_failed (said e))

  abbrev await_inbound : Option Handler → Awaited → OnPath (Option DatagramEnvelope)
  await_inbound none awaited = ok none
  await_inbound (some handler) (answered message) = do
    inbound ← framed (decode_message text_of (bytes_of message))
    handled (handler inbound) inbound
  await_inbound (some handler) (failed_wait e) = err (datagram_path_failed (said e))
  await_inbound (some handler) path_closed = ok none
  await_inbound (some handler) timed_out = ok none

  abbrev closed : Option String → OnPath (Unit {0})
  closed none = ok tt
  closed (some e) = err (datagram_path_failed (said e))

  -- The message that went out, and the datagram that the handler got.
  unfoldable pub emit_datagram :
      DatagramEnvelope
      → Option String
      → Option Handler
      → Awaited
      → Bool
      → Option String
      → OnPath (Message × Option DatagramEnvelope)
  unfolding send_datagram decode_message
  emit_datagram envelope failure handler awaited cancels close_failure = do
    message ← send_datagram envelope failure
    inbound ← await_inbound handler awaited
    reject_if cancels cancelled
    closed close_failure
    ok (message, inbound)
