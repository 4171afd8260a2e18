-- ===== src/Sketch.antt =====
-- src/common/frequency_sketch.rs: the 4-bit count-min sketch, as the source keeps it, in 64-bit
-- words of sixteen counters. `table[i]` is read by `get_or` and written by `set`, at indices that
-- the mask keeps in range (Sketch/Table). u32 arithmetic wraps, as in a release build.
pub mod Word
pub mod Table
pub mod Estimate
pub mod Aging
pub mod Capacity
use moka.Base.{
  ℕ, zero, suc, ◌+◌, ◌-◌, ◌*◌, ◌/◌, ◌%◌, ◌^◌, min, List, [], ◌∷◌, Bool, true, false, not, ◌||◌,
  bit_and, ltb, leb, ◌==◌, if◌then◌else◌, length, get_or, set, replicate,
}
use moka.Base.Word.{
  u8_max, i32_max, u32_max, wrapping_add_u32, wrapping_sub_u32, wrapping_add_u64, wrapping_mul_u64,
}

pub record FrequencySketch : Type 0 where
  pub sample_size : ℕ
  pub table_mask : ℕ
  pub table : List ℕ
  pub size : ℕ

abbrev pub default : FrequencySketch
default = record { sample_size = 0; table_mask = 0; table = []; size = 0 }

-- `SEED[i]`, for a depth below 4.
abbrev pub seed : ℕ → ℕ
seed zero = 0xc3a5_c85c_97cb_3127
seed (suc zero) = 0xb492_b66f_be98_f273
seed (suc (suc zero)) = 0x9ae1_6a3b_2f90_404f
seed (suc (suc (suc _))) = 0xcbf2_9ce4_8422_2325

abbrev pub reset_mask : ℕ
reset_mask = 0x7777_7777_7777_7777

abbrev pub one_mask : ℕ
one_mask = 0x1111_1111_1111_1111

-- `u32::next_power_of_two`, of a number up to 2 ^ 31: the first power of two from `p` on that is
-- not less. The fuel is the number of doublings left.
unfoldable pub next_power_from : ℕ → ℕ → ℕ → ℕ
next_power_from zero p n = p
next_power_from (suc fuel) p n =
    let rest = next_power_from fuel (p * 2) n in if leb n p then p else rest

unfoldable pub next_power_of_two : ℕ → ℕ
unfolding next_power_from
next_power_of_two n = next_power_from 32 1 n

-- On a 64-bit target.
unfoldable pub ensure_capacity : FrequencySketch → ℕ → FrequencySketch
ensure_capacity s cap =
    let maximum = min cap (2 ^ 30) in
    let table_size = if maximum == 0 then 1 else next_power_of_two maximum in
    if leb table_size (length s.table) then s else record s {
      table = replicate table_size 0;
      table_mask = table_size - 1;
      sample_size = if cap == 0 then 10 else min (min (maximum * 10) u32_max) i32_max;
    }

unfoldable pub index_of : FrequencySketch → ℕ → ℕ → ℕ
index_of s hash depth =
    let h = wrapping_mul_u64 (wrapping_add_u64 hash (seed depth)) (seed depth) in
    bit_and (wrapping_add_u64 h (h / 2 ^ 32)) s.table_mask

-- `((hash & 3) << 2) as u8`.
unfoldable pub start_of : ℕ → ℕ
start_of hash = bit_and hash 3 * 2 ^ 2

-- The counter that `frequency` reads at a depth.
unfoldable pub count_at : FrequencySketch → ℕ → ℕ → ℕ
count_at s hash i =
    bit_and (get_or s.table (index_of s hash i) 0 / 2 ^ ((start_of hash + i) * 2 ^ 2)) 0xf

-- The rounds of the loop of `frequency`, `i` the next depth.
unfoldable pub frequency_loop : ℕ → ℕ → FrequencySketch → ℕ → ℕ → ℕ
frequency_loop zero i s hash freq = freq
frequency_loop (suc n) i s hash freq =
    frequency_loop n (i + 1) s hash (min freq (count_at s hash i))

unfoldable pub frequency : FrequencySketch → ℕ → ℕ
frequency s hash = if length s.table == 0 then 0 else frequency_loop 4 0 s hash u8_max

-- The body of `increment_at` on one word: the word, and whether the counter was raised.
unfoldable pub bump : ℕ → ℕ → ℕ × Bool
bump word counter_index =
    let offset = counter_index * 2 ^ 2 in
    let mask = 0xf * 2 ^ offset in
    if bit_and word mask == mask then (word, false) else (word + 1 * 2 ^ offset, true)

unfoldable pub increment_at : FrequencySketch → ℕ → ℕ → FrequencySketch × Bool
unfolding bump
increment_at s table_index counter_index =
    let (word, added) = bump (get_or s.table table_index 0) counter_index in
    (record s { table = set s.table table_index word }, added)

unfoldable pub increment_loop : ℕ → ℕ → FrequencySketch → ℕ → Bool → FrequencySketch × Bool
increment_loop zero i s hash added = (s, added)
increment_loop (suc n) i s hash added =
    let (s', raised) = increment_at s (index_of s hash i) (start_of hash + i) in
    increment_loop n (i + 1) s' hash (added || raised)

-- `u64::count_ones`, over the given number of digits.
unfoldable pub count_ones : ℕ → ℕ → ℕ
count_ones zero w = 0
count_ones (suc n) w = w % 2 + count_ones n (w / 2)

-- The loop of `reset`: the table, and the number of odd counters.
unfoldable pub reset_table : List ℕ → ℕ → List ℕ × ℕ
reset_table [] count = ([], count)
reset_table (entry ∷ table) count =
    let (table', count') =
      reset_table table (wrapping_add_u32 count (count_ones 64 (bit_and entry one_mask))) in
    (bit_and (entry / 2) reset_mask ∷ table', count')

unfoldable pub reset : FrequencySketch → FrequencySketch
reset s =
    let (table, count) = reset_table s.table 0 in
    record s { table = table; size = wrapping_sub_u32 (s.size / 2) (count / 2 ^ 2) }

-- The end of `increment`: count the event, and age the counters when the sample is full.
unfoldable pub count_event : FrequencySketch → FrequencySketch
count_event s =
    let counted = record s { size = wrapping_add_u32 s.size 1 } in
    if leb counted.sample_size counted.size then reset counted else counted

unfoldable pub increment : FrequencySketch → ℕ → FrequencySketch
increment s hash =
    let (s', added) = increment_loop 4 0 s hash false in
    if length s.table == 0 then s else if added then count_event s' else s'
