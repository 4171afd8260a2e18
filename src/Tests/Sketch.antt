-- ===== src/Tests/Sketch.antt =====
-- Tests of src/common/frequency_sketch.rs.
use moka.Base.{
  ℕ, ◌+◌, ◌-◌, ◌/◌, ◌≤◌, ◌<◌, min, ◌≡◌, refl, inr, List, [], ◌∷◌, arith, length, replicate,
}
use moka.Base.Word.{u32_max}
use moka.Sketch.{
  FrequencySketch, default, ensure_capacity, frequency, increment, reset, count_event,
  next_power_of_two, index_of, start_of, count_at, frequency_loop, increment_at, increment_loop,
  reset_table, count_ones,
}
use moka.Sketch.Word.{odd_nibbles}
use moka.Sketch.Table.{IsReady}
use moka.Sketch.Estimate.{
  run, occurrences, frequency-increment_self, frequency-increment_bounds, frequency-run_bounds,
}
use moka.Sketch.Aging.{odd_counters, frequency-reset, size-reset_wraps}
use moka.Sketch.Capacity.{ensure_capacity-IsReady, ensure_capacity_power, size-count_event}

-- What a run of the sketch unfolds.
program : Unit {0}
unfolding ensure_capacity next_power_of_two frequency frequency_loop count_at index_of start_of
    increment_at increment_loop increment count_event reset reset_table count_ones run
program = tt

abbrev fresh : FrequencySketch
fresh = ensure_capacity default 512

fresh-IsReady : IsReady fresh
fresh-IsReady = (ensure_capacity-IsReady default 512 (inr refl)).0

ensure_capacity-IsReady_example :
    IsReady (ensure_capacity default 512) × (512 ≤ length (ensure_capacity default 512).table)
ensure_capacity-IsReady_example = ensure_capacity-IsReady default 512 (inr refl)

ensure_capacity_power_example :
    (length (ensure_capacity default 512).table ≡ 512)
    × ((ensure_capacity default 512).sample_size ≡ 5120)
    × ((ensure_capacity default 512).size ≡ 0)
ensure_capacity_power_example = ensure_capacity_power 9 (omega arith)

-- The test `increment_once` of the source.
increment_once : frequency (increment (ensure_capacity default 8) 77) 77 ≡ 1
unfolding program
increment_once = refl

abbrev four : FrequencySketch
four = record { sample_size = 30; table_mask = 3; table = 0 ∷ 0 ∷ 0 ∷ 0 ∷ []; size = 0 }

abbrev four-IsReady : IsReady four
four-IsReady = record { bits = 2; sized = refl; masked = refl; words = omega arith }

frequency-increment_self_example : frequency (increment four 77) 77 ≡ min 15 (frequency four 77 + 1)
frequency-increment_self_example =
    frequency-increment_self four 77 four-IsReady (omega arith) (omega arith)

frequency-run_bounds_example :
    (min 15 (frequency four 77 + occurrences 77 (77 ∷ 5 ∷ 77 ∷ []))
      ≤ frequency (run (77 ∷ 5 ∷ 77 ∷ []) four) 77)
    × (frequency (run (77 ∷ 5 ∷ 77 ∷ []) four) 77 ≤ frequency four 77 + 3)
frequency-run_bounds_example =
    frequency-run_bounds (77 ∷ 5 ∷ 77 ∷ []) four 77 four-IsReady (omega arith) (omega arith)

frequency-reset_example : frequency (reset four) 5 ≡ frequency four 5 / 2
frequency-reset_example = frequency-reset four 5 four-IsReady

-- A stream of 30 events whose 16 different hashes select each of the 64 counters once, with one
-- hash 14 more times.
abbrev spread : List ℕ
spread =
    0 ∷ 4 ∷ 212 ∷ 1688 ∷ 1 ∷ 5 ∷ 101 ∷ 981 ∷ 2 ∷ 6 ∷ 58 ∷ 830 ∷ 3 ∷ 7 ∷ 247 ∷ 815 ∷ replicate 14 0

-- The sample size of capacity 3 is 30, so the last event ages the counters, and the count of events
-- wraps to 2 ^ 32 - 1.
spread_wraps : (run spread (ensure_capacity default 3)).size ≡ u32_max
unfolding program
spread_wraps = refl

frequency-increment_bounds_example :
    (frequency four 5 ≤ frequency (increment four 77) 5)
    × (frequency (increment four 77) 5 ≤ frequency four 5 + 1)
frequency-increment_bounds_example =
    frequency-increment_bounds four 77 four-IsReady (omega arith) (omega arith) 5

-- The table of `spread_wraps` before its aging: every counter is odd.
abbrev all_odd : FrequencySketch
all_odd = record four { table = replicate 4 0x1111_1111_1111_1111; size = 30 }

odd_all : odd_counters all_odd.table ≡ 64
unfolding odd_counters odd_nibbles
odd_all = refl

size-reset_wraps_example :
    ((reset all_odd).size ≡ 0x1_0000_0000 + 15 - odd_counters all_odd.table / 4)
    × (30 < (reset all_odd).size)
size-reset_wraps_example =
    size-reset_wraps all_odd (omega arith) (rw odd_all (omega arith)) (omega arith)

abbrev nearly_full : FrequencySketch
nearly_full = record four { sample_size = 40; size = 39 }

size-count_event_example :
    (odd_counters nearly_full.table / 4 ≤ 20)
    × ((count_event nearly_full).size ≡ 20 - odd_counters nearly_full.table / 4)
size-count_event_example = size-count_event 2 nearly_full (omega arith) refl refl refl
