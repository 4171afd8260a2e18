-- ===== src/Sketch/Word.antt =====
-- src/common/frequency_sketch.rs: a 64-bit word as sixteen 4-bit counters. `nibble w c` is counter
-- number `c` of the word, and the lemmas say what the masks and shifts of the source do to it.
use native.Mathlib.Nat.{pow-suc, one-le-pow, div-div-eq-div-mul}
use moka.Base.{
  ℕ, zero, suc, ◌+◌, ◌*◌, ◌/◌, ◌%◌, ◌^◌, ◌≤◌, ◌<◌, min, ◌≡◌, refl, bit_and, ltb, ◌==◌,
  if◌then◌else◌, arith,
}
use moka.Base.Bits.{bit_and-fields, bit_and-zero, bit_and-mask}
use moka.Sketch.{bump, count_ones, reset_mask, one_mask}

unfoldable pub nibble : ℕ → ℕ → ℕ
nibble w zero = w % 16
nibble w (suc c) = nibble (w / 16) c

pub nibble-le : (w c : ℕ) → nibble w c ≤ 15
unfolding nibble
nibble-le w zero = omega arith
nibble-le w (suc c) = nibble-le (w / 16) c

-- 2 ^ (4 * c), the weight of counter `c`.
weight_suc : (c : ℕ) → 2 ^ (suc c * 2 ^ 2) ≡ 16 * 2 ^ (c * 2 ^ 2)
weight_suc c =
    let e : suc c * 2 ^ 2 ≡ suc (suc (suc (suc (c * 2 ^ 2)))) = omega arith in
    rw e (
      omega (
        arith,
        pow-suc 2 (suc (suc (suc (c * 2 ^ 2)))),
        pow-suc 2 (suc (suc (c * 2 ^ 2))),
        pow-suc 2 (suc (c * 2 ^ 2)),
        pow-suc 2 (c * 2 ^ 2),
      ))

-- `(word >> 4c) & 0xF` is counter `c`.
pub shift-nibble : (w c : ℕ) → bit_and (w / 2 ^ (c * 2 ^ 2)) 0xf ≡ nibble w c
unfolding nibble
shift-nibble w zero = rw (bit_and-mask 4 (w / 1)) (omega arith)
shift-nibble w (suc c) = rw (weight_suc c, ← div-div-eq-div-mul) (shift-nibble (w / 16) c)

-- The masked word is the full mask exactly when counter `c` is 15.
mask_word : (w c : ℕ) → bit_and w (0xf * 2 ^ (c * 2 ^ 2)) ≡ nibble w c * 2 ^ (c * 2 ^ 2)
unfolding nibble
mask_word w zero = rw (bit_and-mask 4 w) (omega arith)
mask_word w (suc c) =
    let e : w / 16 * 2 ^ 4 + w % 16 ≡ w = omega arith in
    let m : 0xf * 2 ^ (suc c * 2 ^ 2) ≡ 0xf * 2 ^ (c * 2 ^ 2) * 2 ^ 4 + 0 =
      omega (arith, weight_suc c) in
    let f =
      bit_and-fields 4 (w / 16) (w % 16) (0xf * 2 ^ (c * 2 ^ 2)) 0 (omega arith) (omega arith) in
    let f' = rw e at f in rw (m, f', mask_word (w / 16) c, bit_and-zero, weight_suc c) (omega arith)

nibble_add :
    (w c d : ℕ)
    → nibble w c < 15
    → nibble (w + 2 ^ (c * 2 ^ 2)) d ≡ (if d == c then nibble w c + 1 else nibble w d)
unfolding nibble
nibble_add w zero zero h = omega arith
nibble_add w zero (suc d) h = let e : (w + 1) / 16 ≡ w / 16 = omega arith in rw e (ground arith)
nibble_add w (suc c) zero h = grind (arith, weight_suc c)
nibble_add w (suc c) (suc d) h =
    let e : (w + 2 ^ (suc c * 2 ^ 2)) / 16 ≡ w / 16 + 2 ^ (c * 2 ^ 2) =
      omega (arith, weight_suc c) in
    rw e (ground (arith, nibble_add (w / 16) c d h))

add_fits :
    (k w c : ℕ)
    → c < k
    → w < 2 ^ (k * 2 ^ 2)
    → nibble w c < 15
    → w + 2 ^ (c * 2 ^ 2) < 2 ^ (k * 2 ^ 2)
unfolding nibble
add_fits zero w c h b n = absurd (omega arith)
add_fits (suc k) w zero h b n = omega (arith, weight_suc k)
add_fits (suc k) w (suc c) h b n =
    let s = weight_suc k in
    let t = weight_suc c in
    let ih = add_fits k (w / 16) c (omega arith) (omega arith) n in omega arith

lt_scale : (n m p : ℕ) → 0 < p → n < m → n * p < m * p
lt_scale n m p h k = grind arith

eq_scale : (n m p : ℕ) → 0 < p → (n * p == m * p) ≡ (n == m)
eq_scale n m p h = ground (arith, lt_scale n m p, lt_scale m n p)

mask_full :
    (w c : ℕ) → (bit_and w (0xf * 2 ^ (c * 2 ^ 2)) == 0xf * 2 ^ (c * 2 ^ 2)) ≡ (nibble w c == 15)
mask_full w c =
    let pos = one-le-pow (c * 2 ^ 2) 2 (omega arith) in
    rw (mask_word w c) (eq_scale (nibble w c) 15 (2 ^ (c * 2 ^ 2)) pos)

-- `increment_at` on a word: counter `c` goes up by one unless it is 15, which the result tells, and
-- every other counter stays.
pub nibble-bump :
    (w c d : ℕ) → nibble (bump w c).0 d ≡ (if d == c then min 15 (nibble w c + 1) else nibble w d)
unfolding bump
nibble-bump w c d = ground (arith, mask_full w c, nibble-le w c, nibble_add w c d)

pub bump_raised : (w c : ℕ) → (bump w c).1 ≡ ltb (nibble w c) 15
unfolding bump
bump_raised w c = ground (arith, mask_full w c, nibble-le w c)

pub bump_fits : (w c : ℕ) → c < 16 → w < 2 ^ 64 → (bump w c).0 < 2 ^ 64
unfolding bump
bump_fits w c h b = ground (arith, mask_full w c, nibble-le w c, add_fits 16 w c h b)

-- The masks of `reset`, one nibble at a time.
sevens : ℕ → ℕ
sevens zero = 0
sevens (suc n) = sevens n * 2 ^ 4 + 7

ones : ℕ → ℕ
ones zero = 0
ones (suc n) = ones n * 2 ^ 4 + 1

-- The word after a mask with `t` in the low nibble.
and_nibble :
    (w m t : ℕ)
    → t < 16
    → bit_and w (m * 2 ^ 4 + t) ≡ bit_and (w / 16) m * 2 ^ 4 + bit_and (w % 16) t
and_nibble w m t h =
    let e : w / 16 * 2 ^ 4 + w % 16 ≡ w = omega arith in
    let f = bit_and-fields 4 (w / 16) (w % 16) m t (omega arith) h in rw e at f

nibble_half : (n w c : ℕ) → c < n → nibble (bit_and (w / 2) (sevens n)) c ≡ nibble w c / 2
unfolding nibble sevens
nibble_half zero w c h = absurd (omega arith)
nibble_half (suc n) w zero h =
    omega (arith, and_nibble (w / 2) (sevens n) 7 (omega arith), bit_and-mask 3 (w / 2 % 16))
nibble_half (suc n) w (suc c) h =
    let v = and_nibble (w / 2) (sevens n) 7 (omega arith) in
    let low = bit_and-mask 3 (w / 2 % 16) in
    let e : w / 2 / 16 ≡ w / 16 / 2 = omega arith in
    let q : bit_and (w / 2) (sevens n * 2 ^ 4 + 7) / 16 ≡ bit_and (w / 16 / 2) (sevens n) =
      rw (v, low, e) (omega arith) in
    rw q (nibble_half n (w / 16) c (omega arith))

-- `(entry >> 1) & RESET_MASK` halves every counter.
pub nibble-reset_mask : (w c : ℕ) → c < 16 → nibble (bit_and (w / 2) reset_mask) c ≡ nibble w c / 2
unfolding sevens
nibble-reset_mask w c h = nibble_half 16 w c h

-- The number of odd counters among the first `n`.
unfoldable pub odd_nibbles : ℕ → ℕ → ℕ
odd_nibbles zero w = 0
odd_nibbles (suc n) w = w % 2 + odd_nibbles n (w / 16)

pub odd_nibbles-le : (n w : ℕ) → odd_nibbles n w ≤ n
unfolding odd_nibbles
odd_nibbles-le zero w = omega arith
odd_nibbles-le (suc n) w = omega (arith, odd_nibbles-le n (w / 16))

abbrev bits_of : ℕ → ℕ
bits_of zero = 0
bits_of (suc n) = suc (suc (suc (suc (bits_of n))))

count_nibbles : (n w : ℕ) → count_ones (bits_of n) (bit_and w (ones n)) ≡ odd_nibbles n w
unfolding count_ones odd_nibbles ones
count_nibbles zero w = refl
count_nibbles (suc n) w =
    let v = and_nibble w (ones n) 1 (omega arith) in
    let low = bit_and-mask 1 (w % 16) in
    let x = bit_and (w / 16) (ones n) in
    let e : bit_and w (ones n * 2 ^ 4 + 1) ≡ x * 16 + w % 2 = rw (v, low) (omega arith) in
    let q : (x * 16 + w % 2) / 2 / 2 / 2 / 2 ≡ x = omega arith in
    rw (e, q, count_nibbles n (w / 16)) (omega arith)

-- `(entry & ONE_MASK).count_ones()` is the number of odd counters.
pub count_ones-one_mask : (w : ℕ) → count_ones 64 (bit_and w one_mask) ≡ odd_nibbles 16 w
unfolding ones
count_ones-one_mask w = count_nibbles 16 w

sevens_fit : (n v : ℕ) → bit_and v (sevens n) < 2 ^ (n * 2 ^ 2)
unfolding sevens
sevens_fit zero v = rw bit_and-zero (omega arith)
sevens_fit (suc n) v = omega (
  arith,
  and_nibble v (sevens n) 7 (omega arith),
  bit_and-mask 3 (v % 16),
  sevens_fit n (v / 16),
  weight_suc n,
)

pub reset_mask_fits : (v : ℕ) → bit_and v reset_mask < 2 ^ 64
unfolding sevens
reset_mask_fits v = sevens_fit 16 v
