-- ===== src/Obs/Burst/Defs.antt =====
-- src/obs/mod.rs: `record_burst` and `reset_peak`, with the metrics that they set. `Instant::now()`
-- is an argument; both locks are held for the whole of a call.
use newghost.Prelude.{
  ℕ, ◌+◌, ◌-◌, max, Bool, true, ◌&&◌, Option, none, some, List, [], ◌∷◌, ◌++◌, length, ltb, leb,
  if◌then◌else◌,
}
use newghost.Time.{Instant, Duration, saturating_duration_since}

-- The metrics that the detector sets.
pub record ProxyMetrics : Type 0 where
  pub intents_rejected_queue_full : ℕ
  pub intent_queue_len : ℕ
  pub intent_queue_capacity : ℕ
  pub peak_rate : ℕ

-- A line of the log sink, by the numbers in it.
pub record LogLine : Type 0 where
  pub line_recent : ℕ
  pub line_total : ℕ
  pub line_peak : ℕ
  pub line_capacity : ℕ

-- The deque `recent_rejections` has its front first.
pub record BurstDetector : Type 0 where
  pub alert_threshold : ℕ
  pub alert_window : Duration
  pub min_log_interval : Duration
  pub recent_rejections : List Instant
  pub last_log_at : Option Instant
  pub total_rejected : ℕ
  pub peak_rate_per_sec : ℕ
  pub metrics : ProxyMetrics
  pub log_sink : List LogLine

pub record BurstObservation : Type 0 where
  pub observed_recent : ℕ
  pub observed_total : ℕ
  pub observed_peak : ℕ
  pub emitted_log : Bool

-- `now.checked_sub(alert_window).unwrap_or(now)`
abbrev pub cutoff : Duration → Instant → Instant
cutoff window now = if leb window now then now - window else now

-- The loop at the front of the deque.
unfoldable pub evict : Instant → List Instant → List Instant
evict limit [] = []
evict limit (front ∷ rest) =
    let more = evict limit rest in if ltb front limit then more else front ∷ rest

abbrev due : Option Instant → Instant → Duration → Bool
due none now interval = true
due (some last_log_at) now interval = leb interval (saturating_duration_since now last_log_at)

unfoldable pub record_burst : Instant → ℕ → BurstDetector → BurstObservation × BurstDetector
unfolding evict
record_burst now queue_capacity d =
    let total_rejected = d.total_rejected + 1 in
    let kept = evict (cutoff d.alert_window now) (d.recent_rejections ++ now ∷ []) in
    let recent = length kept in
    let peak = max d.peak_rate_per_sec recent in
    let should_log = leb d.alert_threshold recent && due d.last_log_at now d.min_log_interval in
    let line : LogLine = record {
      line_recent = recent;
      line_total = total_rejected;
      line_peak = peak;
      line_capacity = queue_capacity;
    } in
    (
      record {
        observed_recent = recent;
        observed_total = total_rejected;
        observed_peak = peak;
        emitted_log = should_log;
      },
      record d {
        recent_rejections = kept;
        last_log_at = if should_log then some now else d.last_log_at;
        total_rejected = total_rejected;
        peak_rate_per_sec = peak;
        metrics = record {
          intents_rejected_queue_full = d.metrics.intents_rejected_queue_full + 1;
          intent_queue_len = queue_capacity;
          intent_queue_capacity = queue_capacity;
          peak_rate = peak;
        };
        log_sink = if should_log then d.log_sink ++ line ∷ [] else d.log_sink;
      },
    )

unfoldable pub reset_peak : BurstDetector → BurstDetector
reset_peak d = record d { peak_rate_per_sec = 0; metrics = record (d.metrics) { peak_rate = 0 } }
