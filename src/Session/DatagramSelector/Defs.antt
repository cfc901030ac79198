-- ===== src/Session/DatagramSelector/Defs.antt =====
-- src/session/datagram_transport_selector.rs with the time that passes written out, as in the
-- selector of streams: a call starts at instant 0, the carrier's future and the cancellation token
-- are given by when they become ready, and `prefers_cancel` says which branch of `tokio::select!`
-- is taken where both are ready at once.
use Prim.Native.String.{String}
use newghost.Prelude.{ℕ, ◌/◌, Bool, ◌||◌, ◌&&◌, Option, none, some, leb, ltb, ◌==◌, if◌then◌else◌}
use newghost.Prelude.Outcome.{Outcome, ok, err, ◌>>=◌}
use newghost.Time.{Instant, Duration}
use newghost.Datagram.Contract.{DatagramAssociationId, DatagramEnvelope}

pub data DatagramTransportKind : Type 0 where
  wss_datagram : DatagramTransportKind

pub record DatagramTransportResolution : Type 0 where
  pub association_id : DatagramAssociationId
  pub transport_kind : DatagramTransportKind

pub data DatagramTransportSelectError : Type 0 where
  cancelled : DatagramTransportSelectError
  wss_timeout : ℕ → DatagramTransportSelectError
  wss_failed : String → DatagramTransportSelectError

-- What a call of the WSS-backed path does when it is polled: it never ends, or it ends after some
-- time, well or with the text of an error.
pub data PathCall : Type 0 where
  hangs : PathCall
  completes : Duration → PathCall
  breaks : Duration → String → PathCall

pub record Interruption : Type 0 where
  pub cancel_at : Option Instant
  pub prefers_cancel : Instant → Bool

abbrev pub Carried : Type 0
Carried = Outcome DatagramTransportSelectError (Unit {0})

-- The match on the answer of `tokio::time::timeout`, with the instant of the answer. The call is
-- polled before the timer; `as_millis` cuts to whole milliseconds.
unfoldable pub answer_within : Duration → PathCall → Carried × Instant
answer_within timeout hangs = (err (wss_timeout (timeout / 1_000_000)), timeout)
answer_within timeout (completes d) =
    if leb d timeout then (ok tt, d) else (err (wss_timeout (timeout / 1_000_000)), timeout)
answer_within timeout (breaks d text) =
    if leb d timeout
    then (err (wss_failed text), d)
    else (err (wss_timeout (timeout / 1_000_000)), timeout)

-- The race of the token against that answer.
unfoldable pub race : Interruption → Carried × Instant → Carried × Instant
race i (answer, ready) = elim i.cancel_at [
  | none ↦ (answer, ready)
  | some c ↦
      if ltb c ready || (c == ready && i.prefers_cancel ready)
      then (err cancelled, c)
      else (answer, ready)
]

-- The whole of a call: the check of the token, then the race.
unfoldable pub carry : Duration → Interruption → PathCall → Carried × Instant
unfolding answer_within race
carry timeout i call = elim i.cancel_at [
  | none ↦ race i (answer_within timeout call)
  | some c ↦ if c == 0 then (err cancelled, 0) else race i (answer_within timeout call)
]

abbrev pub resolution : DatagramAssociationId → DatagramTransportResolution
resolution id = record { association_id = id; transport_kind = wss_datagram }

unfoldable pub select_transport :
    Duration
    → Interruption
    → PathCall
    → DatagramAssociationId
    → Outcome DatagramTransportSelectError DatagramTransportResolution × Instant
unfolding carry
select_transport timeout i call id =
    let (answer, ready) = carry timeout i call in (answer >>= (λ u. ok (resolution id)), ready)

unfoldable pub emit_outbound_datagram :
    Duration
    → Interruption
    → PathCall
    → DatagramEnvelope
    → Outcome DatagramTransportSelectError DatagramTransportResolution × Instant
unfolding carry
emit_outbound_datagram timeout i call envelope =
    let (answer, ready) = carry timeout i call in
    (answer >>= (λ u. ok (resolution envelope.association_id)), ready)
