-- ===== src/Time.antt =====
-- src/common/time/instant.rs and src/common/time/atomic_time.rs. An `Instant` is its field
-- `elapsed_ns`, a u64, and a `Duration` its number of nanoseconds, a u128; an `AtomicInstant` is
-- the u64 of its cell. `Ordering` annotations have no counterpart.
use moka.Base.{
  ℕ, ◌+◌, ◌-◌, ◌≤◌, ◌<◌, min, ◌≡◌, ◌↔◌, Bool, not, Option, none, some, leb, ◌==◌, if◌then◌else◌,
  arith,
}
use moka.Base.Word.{u64_max, saturating_add_u64, saturating_sub}

abbrev pub max_nanos : ℕ
max_nanos = u64_max - 1

abbrev pub Instant : Type 0
Instant = ℕ

abbrev pub Duration : Type 0
Duration = ℕ

-- `u64::try_from` fails above `u64_max`.
abbrev pub duration_to_saturating_nanoseconds : Duration → ℕ
duration_to_saturating_nanoseconds d = if leb d u64_max then min d max_nanos else max_nanos

abbrev pub from_duration_since_clock_start : Duration → Instant
from_duration_since_clock_start d = duration_to_saturating_nanoseconds d

abbrev pub saturating_add : Instant → Duration → Instant
saturating_add i d = min (saturating_add_u64 i (duration_to_saturating_nanoseconds d)) max_nanos

abbrev pub saturating_duration_since : Instant → Instant → Duration
saturating_duration_since i earlier = saturating_sub i earlier

-- The cell of a default `AtomicInstant`.
abbrev pub unset : ℕ
unset = u64_max

abbrev pub is_set : ℕ → Bool
is_set cell = not (cell == u64_max)

abbrev pub instant : ℕ → Option Instant
instant cell = if cell == u64_max then none else some cell

-- The cell after `set_instant`, and that of `AtomicInstant::new`.
abbrev pub set_instant : ℕ → Instant → ℕ
set_instant cell i = i

-- Adding a duration never gives the value that marks an unset cell, never goes back in time, and is
-- exact unless the sum passes the largest instant.
pub saturating_add_bounds :
    (i : Instant) (d : Duration)
    → i ≤ max_nanos
    → (i ≤ saturating_add i d)
      × (saturating_add i d ≤ max_nanos)
      × (i + d ≤ max_nanos → saturating_add i d ≡ i + d)
saturating_add_bounds i d h = ground arith

-- A stored sum is read back.
pub instant-set_instant-saturating_add :
    (cell : ℕ) (i : Instant) (d : Duration)
    → instant (set_instant cell (saturating_add i d)) ≡ some (saturating_add i d)
instant-set_instant-saturating_add cell i d = ground arith

-- A deadline has passed exactly when the time since the start covers the duration, as long as the
-- clock is short of its largest value.
pub saturating_add-le_iff :
    (i : Instant) (d : Duration) (now : Instant)
    → i ≤ now
    → now < max_nanos
    → (saturating_add i d ≤ now) ↔ (d ≤ saturating_duration_since now i)
saturating_add-le_iff i d now h k = ground arith
