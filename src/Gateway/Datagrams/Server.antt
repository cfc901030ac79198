-- ===== src/Gateway/Datagrams/Server.antt =====
-- src/wss_gateway/mod.rs: `server_datagram_loop` with the reply that it waits for. The log that the
-- loop runs on has a record for each datagram that went out to a target, whatever comes after.
use newghost.Prelude.{◌==◌, ◌∷◌, ◌++◌, none, ◌⊎◌, not, some, List, Option, ℕ, []}
use Prim.Native.String.{[], String}
use newghost.Prelude.Outcome.{ok, err, panic, reject_if}
use newghost.Prelude.Logged.{Logged, ◌>>=◌, ◌>>◌, silent, logs}
use newghost.Net.{SocketAddr, IpText}
use newghost.Datagram.Contract.{DatagramAssociationId}
use newghost.Datagram.Frame.{decode_message}
use newghost.ProxyBridge.UdpRelay.{
  UdpRelayRecord, Egress, relay_outbound_datagram, relay_inbound_datagram,
}
use newghost.Gateway.Handshake.{ready_word}
use newghost.Gateway.WebSocket.{
  Message, text, binary, ping, pong, close, frame, said, quoted, mismatch, WssError,
  datagram_path_failed,
}
use newghost.Gateway.Datagrams.Defs.{OnPath, framed, relayed, bytes_of, send_datagram}

-- What happens to one datagram on the server: its way out, the answer within the time limit, if
-- one comes, and the failure of the message that returns it.
pub record Exchange : Type 0 where
  pub egress : Egress
  pub answer : Option ((List ℕ × SocketAddr) ⊎ String)
  pub returns : Option String

-- A datagram that went out, with the message that returned its answer.
pub record Served : Type 0 where
  pub relay : UdpRelayRecord
  pub reply : Option Message

pub data LoopEvent : Type 0 where
  path_ended : LoopEvent
  path_failed : String → LoopEvent
  received : Message → Exchange → LoopEvent

-- The loop, `none` while it waits for its next frame, with the datagrams that it served in full and
-- all that it sent to targets.
pub record LoopEnd : Type 0 where
  pub result : Option (OnPath (Unit {0}))
  pub served : List Served
  pub relays : List UdpRelayRecord

abbrev pub Serving : Type 0 → Type 0
Serving A = Logged UdpRelayRecord WssError A

module _ (text_of : IpText) where
  abbrev pub answered_with : UdpRelayRecord → Message → Served
  answered_with relay message = record { relay = relay; reply = some message }

  abbrev pub return_answer :
      UdpRelayRecord → Option String → Option ((List ℕ × SocketAddr) ⊎ String) → Serving Served
  return_answer relay failure none = silent (ok (record { relay = relay; reply = none }))
  return_answer relay failure (some answer) = do
    inbound ← silent (relayed (relay_inbound_datagram relay answer))
    message ← silent (send_datagram text_of inbound failure)
    silent (ok (answered_with relay message))

  -- The arm of a binary frame.
  unfoldable pub serve_datagram : DatagramAssociationId → Message → Exchange → Serving Served
  unfolding decode_message relay_outbound_datagram send_datagram
  serve_datagram association_id message exchange = do
    envelope ← silent (framed (decode_message text_of (bytes_of message)))
    silent (
        reject_if (not (envelope.association_id == association_id))
          (datagram_path_failed (mismatch association_id envelope.association_id)))
    relay ← logs (relayed (relay_outbound_datagram exchange.egress envelope))
    return_answer relay exchange.returns exchange.answer

  abbrev ends : List Served → List UdpRelayRecord → OnPath (Unit {0}) → LoopEnd
  ends served relays result = record { result = some result; served = served; relays = relays }

  unfoldable pub serve_frames :
      DatagramAssociationId → List LoopEvent → List Served → List UdpRelayRecord → LoopEnd
  unfolding serve_datagram
  serve_frames id [] served relays = record { result = none; served = served; relays = relays }
  serve_frames id (path_ended ∷ events) served relays = ends served relays (ok tt)
  serve_frames id (path_failed e ∷ events) served relays =
      ends served relays (err (datagram_path_failed (said e)))
  serve_frames id (received (binary bytes) exchange ∷ events) served relays =
      let (outcome, relays') = serve_datagram id (binary bytes) exchange relays in
      elim outcome [
        | ok one ↦ serve_frames id events (served ++ one ∷ []) relays'
        | err e ↦ ends served relays' (err e)
        | panic ↦ ends served relays' panic
      ]
  serve_frames id (received close exchange ∷ events) served relays = ends served relays (ok tt)
  serve_frames id (received ping exchange ∷ events) served relays =
      serve_frames id events served relays
  serve_frames id (received pong exchange ∷ events) served relays =
      serve_frames id events served relays
  serve_frames id (received (text words) exchange ∷ events) served relays =
      ends served relays (err (datagram_path_failed (quoted words)))
  serve_frames id (received frame exchange ∷ events) served relays =
      ends served relays (err (datagram_path_failed (said "unexpected datagram runtime frame")))

  -- The message that says that the path is ready, and its failure; then the loop.
  unfoldable pub server_datagram_loop :
      Option String → DatagramAssociationId → List LoopEvent → Option Message × LoopEnd
  unfolding serve_frames
  server_datagram_loop (some e) id events = (none, ends [] [] (err (datagram_path_failed (said e))))
  server_datagram_loop none id events = (some (text ready_word), serve_frames id events [] [])
