-- ===== src/Examples/Settings.antt =====
-- The theorems on src/config/mod.rs, src/obs/mod.rs and src/udp_origdst/linux.rs at concrete inputs.
use newghost.Prelude.{ℕ, ◌-◌, ◌≡◌, ◌≢◌, ◌↔◌, refl, arith, true, none, List, [], ◌∷◌, ◌++◌, length}
use newghost.Time.{Instant}
use newghost.Net.{v4}
use newghost.Config.{client_args, CliArgs, wss_scheme, try_from}
use newghost.Config.Laws.{accepts, Valid, try_from_iff}
use newghost.Obs.Burst.{BurstDetector, record_burst}
use newghost.Obs.Burst.Window.{run_bursts, instants, filter_from, record_burst-window}
use newghost.Datagram.Contract.{DatagramTarget}
use newghost.OrigDst.Runtime.{
  Handed, Handoff, Round, listener_cancelled, recovered, not_recovered, receive_would_block,
  run_listener, PrefixOf, AllSound, run_listener_lem,
}
use newghost.OrigDst.Control.{
  original_dst_message, parse_original_dst_from_msghdr, parse_original_dst_from_msghdr-ne-none,
}

-- The defaults of a client, with the token `t`.
abbrev arguments : CliArgs
arguments = record {
  mode =
      client_args (record { ip = v4 127 0 0 1; port = 1_080 })
        (record { scheme = wss_scheme; rest = [] }) none none;
  token = 116 ∷ [];
  limit_args = record { pending_intents = 128; sessions = 256 };
  timeout_args = record {
    iroh_connect_timeout = 2;
    wss_connect_timeout = 5;
    socks5_total_timeout = 10;
    graceful_timeout = 60;
    force_kill_after = 90;
  };
  burst_args = record {
    alert_threshold = 50;
    alert_window = 1;
    min_log_interval = 5;
    ring_capacity = 1_000;
  };
}

try_from_iff_example : (accepts (try_from arguments) ≡ true) ↔ Valid arguments
try_from_iff_example = try_from_iff arguments

abbrev detector : BurstDetector
detector = record {
  alert_threshold = 2;
  alert_window = 10;
  min_log_interval = 5;
  recent_rejections = [];
  last_log_at = none;
  total_rejected = 0;
  peak_rate_per_sec = 0;
  metrics = record {
    intents_rejected_queue_full = 0;
    intent_queue_len = 0;
    intent_queue_capacity = 0;
    peak_rate = 0;
  };
  log_sink = [];
}

abbrev rejections : List (Instant × ℕ)
rejections = (20, 4) ∷ (22, 4) ∷ (27, 4) ∷ []

record_burst-window_example :
    (record_burst 31 4 (run_bursts rejections detector)).0.observed_recent
    ≡ length (filter_from (31 - 10) (instants rejections ++ 31 ∷ []))
record_burst-window_example =
    record_burst-window rejections detector 31 4 refl
      (omega arith, (omega arith, (omega arith, (omega arith, tt))))

-- The first of the four rejections has left the window.
window_counts : length (filter_from (31 - 10) (instants rejections ++ 31 ∷ [])) ≡ 3
window_counts = refl

abbrev control : List ℕ
control = original_dst_message 10 0 0 1 53 []

parse_original_dst_from_msghdr-ne-none_example : parse_original_dst_from_msghdr control ≢ none
parse_original_dst_from_msghdr-ne-none_example = parse_original_dst_from_msghdr-ne-none control

abbrev recovered_query : Handed
recovered_query = record {
  tuple = record {
    client_source_addr = record { ip = v4 127 0 0 1; port = 5_000 };
    helper_listener_addr = record { ip = v4 127 0 0 1; port = 10_073 };
    original_target = DatagramTarget.ip (record { ip = v4 10 0 0 1; port = 53 });
    payload_len = 2;
  };
  payload = 1 ∷ 2 ∷ [];
}

abbrev rounds : List Round
rounds = recovered recovered_query ∷ not_recovered receive_would_block ∷ listener_cancelled ∷ []

abbrev accepts_all : Handoff
accepts_all calls one = none

run_listener_lem_example :
    PrefixOf (run_listener accepts_all rounds []).handed (recovered_query ∷ [])
    × AllSound (run_listener accepts_all rounds []).handed
run_listener_lem_example = run_listener_lem accepts_all rounds
