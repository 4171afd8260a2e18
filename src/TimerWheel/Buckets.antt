-- ===== src/TimerWheel/Buckets.antt =====
-- src/common/timer_wheel.rs: `bucket_indices`, and the buckets that `advance` visits.
use moka.Base.{ℕ, zero, suc, ◌+◌, ◌-◌, ◌/◌, ◌%◌, ◌^◌, ◌≤◌, ◌<◌, ◌≡◌, ◌⊎◌, bit_and, arith}
use moka.Base.Bits.{bit_and-mask}
use moka.Time.{Instant}
use moka.TimerWheel.{
  TimerWheel, bucket_counts, wheel_count, spans, shift, tick_index, bucket_loop, bucket_indices,
  duration_nanos_since_last_advanced, time_nanos,
}

pub mask_lem : (level n : ℕ) → bit_and n (bucket_counts level - 1) ≡ n % bucket_counts level
mask_lem zero n = bit_and-mask 6 n
mask_lem (suc zero) n = bit_and-mask 6 n
mask_lem (suc (suc zero)) n = bit_and-mask 5 n
mask_lem (suc (suc (suc zero))) n = bit_and-mask 2 n
mask_lem (suc (suc (suc (suc level)))) n = bit_and-mask 0 n

pub tick_index_lem :
    (level nanos : ℕ) → tick_index level nanos ≡ nanos / 2 ^ shift level % bucket_counts level
unfolding tick_index
tick_index_lem level nanos = mask_lem level (nanos / 2 ^ shift level)

counts_pos : (level : ℕ) → 0 < bucket_counts level
counts_pos zero = omega arith
counts_pos (suc zero) = omega arith
counts_pos (suc (suc zero)) = omega arith
counts_pos (suc (suc (suc zero))) = omega arith
counts_pos (suc (suc (suc (suc level)))) = omega arith

tick_index-lt : (level nanos : ℕ) → tick_index level nanos < bucket_counts level
tick_index-lt level nanos = omega (arith, tick_index_lem level nanos, counts_pos level)

module _ (w : TimerWheel) (time : Instant) where
  -- The bucket of a timer exists: its level is that of a wheel, and its index within the wheel.
  pub bucket_indices_bounds :
      let (level, index) = bucket_indices w time in
      (level < wheel_count) × (index < bucket_counts level)
  unfolding bucket_indices bucket_loop
  bucket_indices_bounds =
      let n = time_nanos w time in
      ground (arith, tick_index-lt 0 n, tick_index-lt 1 n, tick_index-lt 2 n, tick_index-lt 3 n)

  -- The level is the lowest one whose wheel spans the time that is left: a timer stands above the
  -- lowest wheel only if its delay reaches the span of a bucket there, and short of the overflow
  -- wheel only if its delay is less than the span of the next wheel's bucket.
  pub bucket_indices_span :
      let level = (bucket_indices w time).0 in
      let delay = duration_nanos_since_last_advanced w time in
      ((level ≡ 0) ⊎ (spans level ≤ delay)) × ((level ≡ 4) ⊎ (delay < spans (level + 1)))
  unfolding bucket_indices bucket_loop
  bucket_indices_span = ground arith
