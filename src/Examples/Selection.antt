-- ===== src/Examples/Selection.antt =====
-- The theorems on src/session/transport_selector.rs at concrete inputs.
use newghost.Prelude.{◌+◌, ◌≤◌, ◌≡◌, refl, arith, false, none, some, inl}
use newghost.Transport.{ResolvedStream, wss}
use newghost.Session.Selector.{
  TransportSelectorConfig, Environment, never, resolves, open_stream, open_stream_inner,
}
use newghost.Session.Selector.Timing.{open_stream_bounded}
use newghost.Session.Selector.Choice.{open_stream_prefers_iroh}

abbrev timeouts : TransportSelectorConfig
timeouts = record { iroh_timeout = 300; wss_timeout = 500; safety_timeout = 1_000 }

abbrev by_wss : ResolvedStream
by_wss = record { stream = 7; transport_kind = wss }

-- iroh hangs, and WSS answers.
abbrev iroh_hangs : Environment
iroh_hangs = record {
  iroh_opening = never;
  wss_opening = resolves 20 by_wss;
  cancel_at = none;
  prefers_cancel = λ t. false;
}

abbrev cancelled_late : Environment
cancelled_late = record iroh_hangs { cancel_at = some 400 }

open_stream_prefers_iroh_example : (open_stream timeouts iroh_hangs).result ≡ inl by_wss
open_stream_prefers_iroh_example = open_stream_prefers_iroh timeouts iroh_hangs refl (omega arith)

open_stream_bounded_example :
    ((open_stream timeouts iroh_hangs).at ≤ 1_000)
    × ((open_stream_inner timeouts iroh_hangs).at ≤ 300 + 500)
open_stream_bounded_example = open_stream_bounded timeouts iroh_hangs

-- A token that is cancelled before the call stops it at once.
cancelled_first : (open_stream timeouts (record iroh_hangs { cancel_at = some 0 })).at ≡ 0
unfolding open_stream open_stream_inner
cancelled_first = refl
