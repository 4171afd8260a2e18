-- ===== src/Sketch/Aging.antt =====
-- src/common/frequency_sketch.rs: `reset`, the aging of the counters, and the count of events that
-- it leaves.
use moka.Base.{
  ℕ, zero, suc, ◌+◌, ◌-◌, ◌*◌, ◌/◌, ◌≤◌, ◌<◌, min, ◌≡◌, refl, ap, List, [], ◌∷◌, bit_and, length,
  get_or, arith,
}
use moka.Base.Word.{u32_max, i32_max, wrapping_add_u32}
use moka.Sketch.{
  FrequencySketch, index_of, start_of, frequency, reset_table, reset, count_ones, one_mask,
}
use moka.Sketch.Word.{
  nibble, nibble-reset_mask, odd_nibbles, odd_nibbles-le, count_ones-one_mask, reset_mask_fits,
}
use moka.Sketch.Table.{AllWords, IsReady, counter, start_of_lem}
use moka.Sketch.Estimate.{selected, frequency-selected, filled}

-- The number of odd counters of a table.
unfoldable pub odd_counters : List ℕ → ℕ
odd_counters [] = 0
odd_counters (w ∷ ws) = odd_nibbles 16 w + odd_counters ws

pub odd_counters-le : (ws : List ℕ) → odd_counters ws ≤ 16 * length ws
unfolding odd_counters
odd_counters-le [] = omega arith
odd_counters-le (w ∷ ws) = omega (arith, odd_nibbles-le 16 w, odd_counters-le ws)

reset_table_count :
    (ws : List ℕ) (count : ℕ)
    → count + 16 * length ws ≤ u32_max
    → (reset_table ws count).1 ≡ count + odd_counters ws
unfolding reset_table odd_counters
reset_table_count [] count h = omega arith
reset_table_count (w ∷ ws) count h =
    let le = odd_nibbles-le 16 w in
    let e : wrapping_add_u32 count (count_ones 64 (bit_and w one_mask)) ≡ count + odd_nibbles 16 w =
      rw count_ones-one_mask (omega arith) in
    rw e (omega (arith, reset_table_count ws (count + odd_nibbles 16 w) (omega arith)))

length-reset_table : (ws : List ℕ) (count : ℕ) → length (reset_table ws count).0 ≡ length ws
unfolding reset_table
length-reset_table [] count = refl
length-reset_table (w ∷ ws) count = ap suc (length-reset_table ws _)

nibble-zero : (c : ℕ) → nibble 0 c ≡ 0
unfolding nibble
nibble-zero zero = refl
nibble-zero (suc c) = nibble-zero c

nibble-reset_table :
    (ws : List ℕ) (count j c : ℕ)
    → c < 16
    → nibble (get_or (reset_table ws count).0 j 0) c ≡ nibble (get_or ws j 0) c / 2
unfolding reset_table
nibble-reset_table [] count j c h = omega (arith, nibble-zero c)
nibble-reset_table (w ∷ ws) count zero c h = nibble-reset_mask w c h
nibble-reset_table (w ∷ ws) count (suc j) c h = nibble-reset_table ws _ j c h

words-reset_table : (ws : List ℕ) (count : ℕ) → AllWords (reset_table ws count).0
unfolding reset_table
words-reset_table [] count = tt
words-reset_table (w ∷ ws) count = (reset_mask_fits (w / 2), words-reset_table ws _)

pub reset-IsReady : (s : FrequencySketch) → IsReady s → IsReady (reset s)
unfolding reset
reset-IsReady s r = record {
  bits = r.bits;
  sized = rw (length-reset_table s.table 0) r.sized;
  masked = r.masked;
  words = words-reset_table s.table 0;
}

selected-reset :
    (s : FrequencySketch) (hash i : ℕ) → i < 4 → selected (reset s) hash i ≡ selected s hash i / 2
unfolding selected counter reset index_of
selected-reset s hash i h =
    nibble-reset_table s.table 0 (index_of s hash i) (start_of hash + i)
      (omega (arith, start_of_lem hash))

min_half : (a b : ℕ) → min (a / 2) (b / 2) ≡ min a b / 2
min_half a b = omega arith

-- Aging halves every estimate.
pub frequency-reset :
    (s : FrequencySketch) (hash : ℕ) → IsReady s → frequency (reset s) hash ≡ frequency s hash / 2
frequency-reset s hash r =
    rw
      (
        frequency-selected s hash (filled s r),
        frequency-selected (reset s) hash (filled (reset s) (reset-IsReady s r)),
        selected-reset s hash 0 (omega arith),
        selected-reset s hash 1 (omega arith),
        selected-reset s hash 2 (omega arith),
        selected-reset s hash 3 (omega arith),
      )
      (simp min_half)

reset_count :
    (s : FrequencySketch)
    → 16 * length s.table ≤ u32_max
    → (reset_table s.table 0).1 ≡ odd_counters s.table
reset_count s h = omega (arith, reset_table_count s.table 0 (omega arith))

-- Where half of the events is at least four times the number of words, the count of events after
-- aging is half of what it was, less a quarter of the number of odd counters, and nothing wraps.
pub size-reset_fits :
    (s : FrequencySketch)
    → 16 * length s.table ≤ u32_max
    → 4 * length s.table ≤ s.size / 2
    → s.size ≤ u32_max
    → (odd_counters s.table / 4 ≤ s.size / 2)
      × ((reset s).size ≡ s.size / 2 - odd_counters s.table / 4)
unfolding reset
size-reset_fits s h k b =
    let le = odd_counters-le s.table in rw (reset_count s h) (omega arith, omega arith)

-- Where a quarter of the number of odd counters is more than half of the events, the subtraction
-- wraps, and the count of events after aging is above the sample size.
pub size-reset_wraps :
    (s : FrequencySketch)
    → 16 * length s.table ≤ u32_max
    → s.size / 2 < odd_counters s.table / 4
    → s.sample_size ≤ i32_max
    → ((reset s).size ≡ 0x1_0000_0000 + s.size / 2 - odd_counters s.table / 4)
      × (s.sample_size < (reset s).size)
unfolding reset
size-reset_wraps s h k b =
    let le = odd_counters-le s.table in rw (reset_count s h) (omega arith, omega arith)
