-- ===== src/Obs/Burst/Window.antt =====
-- The sliding window of the burst detector of src/obs/mod.rs.
use newghost.Prelude.{
  ℕ, ◌-◌, ◌≤◌, ◌≡◌, refl, sym, ap, ◌∙◌, arith, false, List, [], ◌∷◌, ◌++◌, length, ltb,
  if◌then◌else◌, append_assoc, inl, inr, Bool-cases,
}
use newghost.Time.{Instant, Duration}
use newghost.Obs.Burst.Defs.{BurstDetector, record_burst, cutoff, evict}

-- The instants that are not before the limit.
abbrev pub filter_from : Instant → List Instant → List Instant
filter_from limit [] = []
filter_from limit (t ∷ ts) =
    let more = filter_from limit ts in if ltb t limit then more else t ∷ more

-- Instants in their order, none before `low`.
abbrev pub Ascending : Instant → List Instant → Type 0
Ascending low [] = Unit {0}
Ascending low (t ∷ ts) = (low ≤ t) × Ascending t ts

abbrev pub run_bursts : List (Instant × ℕ) → BurstDetector → BurstDetector
run_bursts [] d = d
run_bursts ((now, queue_capacity) ∷ rejections) d =
    run_bursts rejections (record_burst now queue_capacity d).1

abbrev pub instants : List (Instant × ℕ) → List Instant
instants [] = []
instants ((now, queue_capacity) ∷ rejections) = now ∷ instants rejections

filter_from_all :
    (limit low : Instant) (ts : List Instant)
    → limit ≤ low
    → Ascending low ts
    → filter_from limit ts ≡ ts
filter_from_all limit low [] h sorted = refl
filter_from_all limit low (t ∷ ts) h sorted =
    let inside : ltb t limit ≡ false = ground (arith, h, sorted.0) in
    rw inside (ap (◌∷◌ t) (filter_from_all limit t ts (omega (arith, h, sorted.0)) sorted.1))

evict-filter_from :
    (limit low : Instant) (ts : List Instant)
    → Ascending low ts
    → evict limit ts ≡ filter_from limit ts
unfolding evict
evict-filter_from limit low [] sorted = refl
evict-filter_from limit low (t ∷ ts) sorted =
    let more = evict-filter_from limit t ts sorted.1 in
    let all = filter_from_all limit t ts in ground (arith, more, all, sorted)

Ascending-weaken :
    (low low' : Instant) (ts : List Instant) → low ≤ low' → Ascending low' ts → Ascending low ts
Ascending-weaken low low' [] h sorted = tt
Ascending-weaken low low' (t ∷ ts) h sorted = (omega (arith, h, sorted.0), sorted.1)

filter_from-Ascending :
    (limit low top : Instant) (ts : List Instant)
    → Ascending low (ts ++ top ∷ [])
    → Ascending low (filter_from limit ts ++ top ∷ [])
filter_from-Ascending limit low top [] sorted = sorted
filter_from-Ascending limit low top (t ∷ ts) sorted =
    let more = filter_from-Ascending limit t top ts sorted.1 in
    let weaker = Ascending-weaken low t (filter_from limit ts ++ top ∷ []) sorted.0 more in
    elim (Bool-cases (ltb t limit)) [
      | inl out ↦ rw out weaker
      | inr inside ↦ rw inside (sorted.0, more)
    ]

Ascending-raise :
    (low top now : Instant) (ts : List Instant)
    → top ≤ now
    → Ascending low (ts ++ top ∷ [])
    → Ascending low (ts ++ now ∷ [])
Ascending-raise low top now [] h sorted = (omega (arith, h, sorted.0), tt)
Ascending-raise low top now (t ∷ ts) h sorted = (sorted.0, Ascending-raise t top now ts h sorted.1)

Ascending-again :
    (low now : Instant) (ts : List Instant)
    → Ascending low (ts ++ now ∷ [])
    → Ascending low ((ts ++ now ∷ []) ++ now ∷ [])
Ascending-again low now [] sorted = (sorted.0, (omega arith, tt))
Ascending-again low now (t ∷ ts) sorted = (sorted.0, Ascending-again t now ts sorted.1)

filter_from-narrow :
    (limit limit' : Instant) (ts : List Instant)
    → limit ≤ limit'
    → filter_from limit' (filter_from limit ts) ≡ filter_from limit' ts
filter_from-narrow limit limit' [] h = refl
filter_from-narrow limit limit' (t ∷ ts) h = ground (arith, h, filter_from-narrow limit limit' ts h)

filter_from-append :
    (limit : Instant) (xs ys : List Instant)
    → filter_from limit (xs ++ ys) ≡ filter_from limit xs ++ filter_from limit ys
filter_from-append limit [] ys = refl
filter_from-append limit (x ∷ xs) ys = ground (arith, filter_from-append limit xs ys)

record_burst-keeps :
    (d : BurstDetector) (past : List Instant) (limit low prev now queue_capacity : ℕ)
    → d.recent_rejections ≡ filter_from limit past
    → d.alert_window ≤ now
    → limit ≤ now - d.alert_window
    → Ascending low (past ++ prev ∷ [])
    → prev ≤ now
    → (record_burst now queue_capacity d).1.recent_rejections
      ≡ filter_from (now - d.alert_window) (past ++ now ∷ [])
unfolding record_burst
record_burst-keeps d past limit low prev now queue_capacity exact fits lower sorted later =
    let limit' = now - d.alert_window in
    let cut : cutoff d.alert_window now ≡ limit' = ground (arith, fits) in
    let sorted' =
      filter_from-Ascending limit low now past (Ascending-raise low prev now past later sorted) in
    ap (λ (l : Instant). evict l (d.recent_rejections ++ now ∷ [])) cut
    ∙ ap (λ (ts : List Instant). evict limit' (ts ++ now ∷ [])) exact
    ∙ evict-filter_from limit' low (filter_from limit past ++ now ∷ []) sorted'
    ∙ filter_from-append limit' (filter_from limit past) (now ∷ [])
    ∙ ap (λ (ts : List Instant). ts ++ filter_from limit' (now ∷ []))
        (filter_from-narrow limit limit' past lower)
    ∙ sym (filter_from-append limit' past (now ∷ []))

alert_window-record_burst :
    (now queue_capacity : ℕ) (d : BurstDetector)
    → (record_burst now queue_capacity d).1.alert_window ≡ d.alert_window
unfolding record_burst
alert_window-record_burst now queue_capacity d = refl

observed_recent-length :
    (now queue_capacity : ℕ) (d : BurstDetector)
    → (record_burst now queue_capacity d).0.observed_recent
      ≡ length (record_burst now queue_capacity d).1.recent_rejections
unfolding record_burst
observed_recent-length now queue_capacity d = refl

run_bursts-window :
    (rejections : List (Instant × ℕ)) (d : BurstDetector) (past : List Instant)
    (window limit low prev now queue_capacity : ℕ)
    → d.alert_window ≡ window
    → d.recent_rejections ≡ filter_from limit past
    → window ≤ prev
    → limit ≤ prev - window
    → Ascending low (past ++ prev ∷ [])
    → Ascending prev (instants rejections ++ now ∷ [])
    → (record_burst now queue_capacity (run_bursts rejections d)).0.observed_recent
      ≡ length (filter_from (now - window) (past ++ (instants rejections ++ now ∷ [])))
run_bursts-window [] d past window limit low prev now queue_capacity same exact fits lower sorted
      later =
    observed_recent-length now queue_capacity d
    ∙ ap length (
        record_burst-keeps d past limit low prev now queue_capacity exact
          (omega (arith, same, fits, later.0)) (omega (arith, same, fits, lower, later.0)) sorted
          later.0)
    ∙ ap (λ (w : Duration). length (filter_from (now - w) (past ++ now ∷ []))) same
run_bursts-window ((t, cap) ∷ rejections) d past window limit low prev now queue_capacity same exact
      fits lower sorted later =
    let keeps =
      record_burst-keeps d past limit low prev t cap exact (omega (arith, same, fits, later.0))
        (omega (arith, same, fits, lower, later.0)) sorted later.0 in
    let kept = keeps ∙ ap (λ (w : Duration). filter_from (t - w) (past ++ t ∷ [])) same in
    let sorted' = Ascending-again low t past (Ascending-raise low prev t past later.0 sorted) in
    run_bursts-window rejections (record_burst t cap d).1 (past ++ t ∷ []) window (t - window) low t
      now queue_capacity (alert_window-record_burst t cap d ∙ same) kept
      (omega (arith, fits, later.0)) (omega arith) sorted' later.1
    ∙ ap (λ (ts : List Instant). length (filter_from (now - window) ts))
        (append_assoc past (t ∷ []) (instants rejections ++ now ∷ []))

-- A detector that starts empty and gets rejections in the order of their instants, the first of
-- them not before the length of the window, counts at each rejection exactly the rejections of its
-- whole history that are not older than the window: it forgets none of them and keeps no other.
pub record_burst-window :
    (rejections : List (Instant × ℕ)) (d : BurstDetector) (now queue_capacity : ℕ)
    → d.recent_rejections ≡ []
    → Ascending d.alert_window (instants rejections ++ now ∷ [])
    → (record_burst now queue_capacity (run_bursts rejections d)).0.observed_recent
      ≡ length (filter_from (now - d.alert_window) (instants rejections ++ now ∷ []))
record_burst-window rejections d now queue_capacity empty sorted =
    run_bursts-window rejections d [] d.alert_window 0 0 d.alert_window now queue_capacity refl
      empty (omega arith) (omega arith) (omega arith, tt) sorted
