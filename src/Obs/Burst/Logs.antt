-- ===== src/Obs/Burst/Logs.antt =====
-- How often the burst detector of src/obs/mod.rs logs.
use newghost.Prelude.{ℕ, ◌≤◌, Option, none, some, List, [], ◌∷◌, if◌then◌else◌}
use newghost.Time.{Instant, Duration, saturating_duration_since}
use newghost.Obs.Burst.Defs.{BurstDetector, record_burst}

-- The instants at which a run of rejections, each with the capacity of the queue, wrote a log.
abbrev pub logged : List (Instant × ℕ) → BurstDetector → List Instant
logged [] d = []
logged ((now, queue_capacity) ∷ rejections) d =
    let (seen, d') = record_burst now queue_capacity d in
    let more = logged rejections d' in if seen.emitted_log then now ∷ more else more

abbrev pub Spaced : Duration → Option Instant → List Instant → Type 0
Spaced interval last [] = Unit {0}
Spaced interval none (t ∷ ts) = Spaced interval (some t) ts
Spaced interval (some last) (t ∷ ts) =
    (interval ≤ saturating_duration_since t last) × Spaced interval (some t) ts
