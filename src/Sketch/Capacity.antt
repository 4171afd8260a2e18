-- ===== src/Sketch/Capacity.antt =====
-- src/common/frequency_sketch.rs: `ensure_capacity` and the sizes that it chooses.
use native.Mathlib.Nat.{pow-suc, one-le-pow, pow-le-pow_right}
use moka.Base.{
  ℕ, zero, suc, ◌+◌, ◌-◌, ◌*◌, ◌/◌, ◌^◌, ◌≤◌, ◌<◌, min, ◌≡◌, refl, ap, ◌∙◌, ◌⊎◌, inl, inr, [],
  Bool-cases, leb, ◌==◌, if◌then◌else◌, length, length-replicate, replicate, arith, dec_lt,
}
use moka.Base.Word.{u32_max, i32_max}
use moka.Sketch.{
  FrequencySketch, default, next_power_from, next_power_of_two, ensure_capacity, count_event,
}
use moka.Sketch.Table.{AllWords, IsReady}
use moka.Sketch.Aging.{odd_counters, size-reset_fits}

-- What `next_power_of_two` promises.
abbrev pub IsNextPower : ℕ → ℕ → Type 0
IsNextPower n p = (k : ℕ) × (p ≡ 2 ^ k) × (n ≤ p) × (p < 2 * n) × (k ≤ 32)

next_power_from_lem :
    (fuel j n : ℕ)
    → n ≤ 2 ^ (fuel + j)
    → 2 ^ j < 2 * n
    → fuel + j ≤ 32
    → IsNextPower n (next_power_from fuel (2 ^ j) n)
unfolding next_power_from
next_power_from_lem zero j n h k b =
    let e : zero + j ≡ j = omega arith in let h' = rw e at h in (j, refl, h', k, omega arith)
next_power_from_lem (suc fuel) j n h k b = elim (Bool-cases (leb n (2 ^ j))) [
  | inl e ↦ rw e (j, refl, ground arith, k, omega arith)
  | inr e ↦
      let twice : 2 ^ j * 2 ≡ 2 ^ suc j = omega (arith, pow-suc 2 j) in
      let m : suc fuel + j ≡ fuel + suc j = omega arith in
      let h' = rw m at h in
      rw (e, twice)
        (next_power_from_lem fuel (suc j) n h' (ground (arith, pow-suc 2 j)) (omega arith))
]

pub next_power_of_two_lem : (n : ℕ) → 0 < n → n ≤ 2 ^ 32 → IsNextPower n (next_power_of_two n)
unfolding next_power_of_two
next_power_of_two_lem n h k = next_power_from_lem 32 0 n k (omega arith) (omega arith)

AllWords-replicate : (n : ℕ) → AllWords (replicate n 0)
AllWords-replicate zero = tt
AllWords-replicate (suc n) = (omega arith, AllWords-replicate n)

-- The table size that `ensure_capacity` wants.
unfoldable pub wanted : ℕ → ℕ
wanted room = if min room (2 ^ 30) == 0 then 1 else next_power_of_two (min room (2 ^ 30))

wanted_lem :
    (room : ℕ)
    → (k : ℕ) × (wanted room ≡ 2 ^ k)
      × (min room (2 ^ 30) ≤ wanted room)
      × (wanted room ≤ 2 * min room (2 ^ 30) + 1)
unfolding wanted
wanted_lem room = elim (Bool-cases (min room (2 ^ 30) == 0)) [
  | inl e ↦ rw e (0, refl, ground arith, omega arith)
  | inr e ↦
      let p = next_power_of_two_lem (min room (2 ^ 30)) (ground arith) (omega arith) in
      rw e (p.0, p.1, p.2, ground arith)
]

-- The sketch with a new table.
abbrev resized : FrequencySketch → ℕ → FrequencySketch
resized s room = record s {
  table = replicate (wanted room) 0;
  table_mask = wanted room - 1;
  sample_size = if room == 0 then 10 else min (min (min room (2 ^ 30) * 10) u32_max) i32_max;
}

ensure_capacity_lem :
    (s : FrequencySketch) (room : ℕ)
    → ensure_capacity s room ≡ (if leb (wanted room) (length s.table) then s else resized s room)
unfolding ensure_capacity wanted
ensure_capacity_lem s room = refl

resized-IsReady : (s : FrequencySketch) (room : ℕ) → IsReady (resized s room)
resized-IsReady s room =
    let w = wanted_lem room in
    record {
      bits = w.0;
      sized = length-replicate (wanted room) 0 ∙ w.1;
      masked = ap (λ n. n - 1) w.1;
      words = AllWords-replicate (wanted room);
    }

-- After `ensure_capacity` a sketch that was ready or had no table is ready: the length of its
-- table is a power of two that matches the mask, and it has a word for each entry of the
-- capacity, up to 2^30.
pub ensure_capacity-IsReady :
    (s : FrequencySketch) (room : ℕ)
    → IsReady s ⊎ (s.table ≡ [])
    → IsReady (ensure_capacity s room) × (min room (2 ^ 30) ≤ length (ensure_capacity s room).table)
ensure_capacity-IsReady s room r = elim (Bool-cases (leb (wanted room) (length s.table))) [
  | inl e ↦ rw (ensure_capacity_lem s room, e) (kept r (ground arith))
  | inr e ↦
      rw (ensure_capacity_lem s room, e)
        (
          resized-IsReady s room,
          omega (arith, length-replicate {A = ℕ} (wanted room) 0, (wanted_lem room).2),
        )
]
  where
    kept :
        IsReady s ⊎ (s.table ≡ [])
        → wanted room ≤ length s.table
        → IsReady s × (min room (2 ^ 30) ≤ length s.table)
    kept (inl ready) h = (ready, omega (arith, (wanted_lem room).2))
    kept (inr empty) h =
        let w = wanted_lem room in
        absurd (omega (arith, one-le-pow w.0 2 (omega arith), w.1, ap length empty))

pow_between : (k j : ℕ) → 2 ^ k ≤ 2 ^ j → 2 ^ j < 2 * 2 ^ k → 2 ^ j ≡ 2 ^ k
pow_between k j h b = elim (dec_lt k j) [
  | yes lt ↦
      let up : 2 ^ suc k ≤ 2 ^ j = pow-le-pow_right (omega arith) lt in
      absurd (omega (arith, pow-suc 2 k))
  | no ge ↦ let down : 2 ^ j ≤ 2 ^ k = pow-le-pow_right (omega arith) (omega arith) in omega arith
]

wanted_power : (k : ℕ) → k ≤ 26 → wanted (2 ^ k) ≡ 2 ^ k
unfolding wanted
wanted_power k h =
    let small : 2 ^ k ≤ 2 ^ 26 = pow-le-pow_right (omega arith) h in
    let pos = one-le-pow k 2 (omega arith) in
    let e : min (2 ^ k) (2 ^ 30) ≡ 2 ^ k = omega arith in
    let p = next_power_of_two_lem (2 ^ k) pos (omega arith) in
    let lo : 2 ^ k ≤ 2 ^ p.0 = omega (arith, p.1, p.2) in
    let hi : 2 ^ p.0 < 2 * 2 ^ k = omega (arith, p.1, p.3) in
    rw e (ground (arith, p.1, pow_between k p.0 lo hi))

-- For a capacity that is a power of two, up to 2 ^ 26, a fresh sketch gets as many words as the
-- capacity and a sample of ten events for each.
pub ensure_capacity_power :
    (k : ℕ)
    → k ≤ 26
    → let s = ensure_capacity default (2 ^ k) in
      (length s.table ≡ 2 ^ k) × (s.sample_size ≡ 10 * 2 ^ k) × (s.size ≡ 0)
ensure_capacity_power k h =
    let small : 2 ^ k ≤ 2 ^ 26 = pow-le-pow_right (omega arith) h in
    let pos = one-le-pow k 2 (omega arith) in
    let w = wanted_power k h in
    let l = length-replicate {A = ℕ} (wanted (2 ^ k)) 0 in
    rw (ensure_capacity_lem default (2 ^ k)) (ground (arith, w, l, pos, small))

-- Where the capacity is a power of two up to 2^26 and the table has as many words, the event
-- that completes the sample leaves half of the sample size as the count of events, less a
-- quarter of the number of odd counters, without a wrap.
pub size-count_event :
    (k : ℕ) (s : FrequencySketch)
    → k ≤ 26
    → length s.table ≡ 2 ^ k
    → s.sample_size ≡ 10 * 2 ^ k
    → s.size + 1 ≡ s.sample_size
    → (odd_counters s.table / 4 ≤ 5 * 2 ^ k)
      × ((count_event s).size ≡ 5 * 2 ^ k - odd_counters s.table / 4)
unfolding count_event
size-count_event k s h len sample full =
    let small : 2 ^ k ≤ 2 ^ 26 = pow-le-pow_right (omega arith) h in
    let fits =
      size-reset_fits (record s { size = s.size + 1 }) (omega arith) (omega arith) (omega arith) in
    ground arith
