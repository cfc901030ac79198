-- ===== src/Time.antt =====
-- `std::time`: an `Instant` and a `Duration` are natural numbers of one unit (nanoseconds).
-- Each reading of the clock (`Instant::now()`) is an argument of the operation that makes it.
use newghost.Prelude.{ℕ, ◌-◌}

abbrev pub Instant : Type 0
Instant = ℕ

abbrev pub Duration : Type 0
Duration = ℕ

-- `Instant::saturating_duration_since`.
abbrev pub saturating_duration_since : Instant → Instant → Duration
saturating_duration_since now earlier = now - earlier
