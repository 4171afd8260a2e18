-- ===== src/Base/Bits.antt =====
-- The laws of `&` and `|` that the masks of the source need: both operations work field by field.
use Prim.Native.Nat.{
  ℕ, zero, suc, ◌+◌, ◌-◌, ◌*◌, ◌/◌, ◌%◌, ◌^◌, ◌≤◌, ◌<◌, min, max, bit_and, bit_or, digits,
  bit_and-bitwise, bit_or-bitwise,
}
use mathlib.Core.Path.{◌≡◌, refl, ap}
use native.Mathlib.Nat.{pow-suc, one-le-pow}
use native.Mathlib.Omega.{arith}

-- The count of digits to go does not matter where it is large enough.
module _ (z : ℕ → ℕ) (f : ℕ → ℕ → ℕ) where
  digits-count : (n m a b : ℕ) → a ≤ n → a ≤ m → digits z f n a b ≡ digits z f m a b
  digits-count zero zero zero b p q = refl
  digits-count zero (suc m) zero b p q = refl
  digits-count (suc n) zero zero b p q = refl
  digits-count (suc n) (suc m) zero b p q = refl
  digits-count zero m (suc a) b p q = absurd (omega arith)
  digits-count (suc n) zero (suc a) b p q = absurd (omega arith)
  digits-count (suc n) (suc m) (suc a) b p q =
      ap (λ (t : ℕ). t * 2 + f (suc a % 2) (b % 2))
        (digits-count n m (suc a / 2) (b / 2) (omega arith) (omega arith))

and_zero : (b : ℕ) → bit_and 0 b ≡ 0
and_zero b = bit_and-bitwise 0 b

or_zero : (b : ℕ) → bit_or 0 b ≡ b
or_zero b = bit_or-bitwise 0 b

and_step : (a b : ℕ) → bit_and a b ≡ bit_and (a / 2) (b / 2) * 2 + min (a % 2) (b % 2)
and_step zero b = omega (arith, and_zero b, and_zero (b / 2))
and_step (suc a) b = omega (
  arith,
  bit_and-bitwise (suc a) b,
  bit_and-bitwise (suc a / 2) (b / 2),
  digits-count (λ b. 0) min a (suc a / 2) (suc a / 2) (b / 2) (omega arith) (omega arith),
)

or_step : (a b : ℕ) → bit_or a b ≡ bit_or (a / 2) (b / 2) * 2 + max (a % 2) (b % 2)
or_step zero b = omega (arith, or_zero b, or_zero (b / 2))
or_step (suc a) b = omega (
  arith,
  bit_or-bitwise (suc a) b,
  bit_or-bitwise (suc a / 2) (b / 2),
  digits-count (λ b. b) max a (suc a / 2) (suc a / 2) (b / 2) (omega arith) (omega arith),
)

mul-pow-suc : (q k : ℕ) → q * 2 ^ suc k ≡ 2 * (q * 2 ^ k)
mul-pow-suc q k = omega (arith, ap (λ (t : ℕ). q * t) (pow-suc 2 k))

-- An operation on binary digits, cut at any position.
module _ (op f : ℕ → ℕ → ℕ) (nil : op 0 0 ≡ 0)
    (step : (a b : ℕ) → op a b ≡ op (a / 2) (b / 2) * 2 + f (a % 2) (b % 2)) where
  fields :
      (k q r s t : ℕ)
      → r < 2 ^ k
      → t < 2 ^ k
      → op (q * 2 ^ k + r) (s * 2 ^ k + t) ≡ op q s * 2 ^ k + op r t
  fields zero q r s t hr ht =
      let e : r ≡ 0 = omega arith in
      let e' : t ≡ 0 = omega arith in
      let q' : q * 2 ^ 0 + r ≡ q = omega arith in
      let s' : s * 2 ^ 0 + t ≡ s = omega arith in rw (q', s', e, e', nil) (omega arith)
  fields (suc k) q r s t hr ht =
      let two = pow-suc 2 k in
      let qk = mul-pow-suc q k in
      let sk = mul-pow-suc s k in
      let ih = fields k q (r / 2) s (t / 2) (omega arith) (omega arith) in
      let a = q * 2 ^ suc k + r in
      let b = s * 2 ^ suc k + t in
      let a2 : a / 2 ≡ q * 2 ^ k + r / 2 = omega arith in
      let b2 : b / 2 ≡ s * 2 ^ k + t / 2 = omega arith in
      let a0 : a % 2 ≡ r % 2 = omega arith in
      let b0 : b % 2 ≡ t % 2 = omega arith in
      let left = step a b in
      let right = step r t in
      let mid : op a b ≡ op (q * 2 ^ k + r / 2) (s * 2 ^ k + t / 2) * 2 + f (r % 2) (t % 2) =
        rw (left, a2, b2, a0, b0) refl in
      rw (mid, right, ih) (omega (arith, mul-pow-suc (op q s) k))

pub bit_and-fields :
    (k q r s t : ℕ)
    → r < 2 ^ k
    → t < 2 ^ k
    → bit_and (q * 2 ^ k + r) (s * 2 ^ k + t) ≡ bit_and q s * 2 ^ k + bit_and r t
bit_and-fields = fields bit_and min refl and_step

pub bit_or-fields :
    (k q r s t : ℕ)
    → r < 2 ^ k
    → t < 2 ^ k
    → bit_or (q * 2 ^ k + r) (s * 2 ^ k + t) ≡ bit_or q s * 2 ^ k + bit_or r t
bit_or-fields = fields bit_or max refl or_step

and_zero_right_count : (n a : ℕ) → a ≤ n → bit_and a 0 ≡ 0
and_zero_right_count n zero h = refl
and_zero_right_count zero (suc a) h = absurd (omega arith)
and_zero_right_count (suc n) (suc a) h =
    omega (arith, and_step (suc a) 0, and_zero_right_count n (suc a / 2) (omega arith))

pub bit_and-zero : (a : ℕ) → bit_and a 0 ≡ 0
bit_and-zero a = and_zero_right_count a a (omega arith)

or_zero_right_count : (n a : ℕ) → a ≤ n → bit_or a 0 ≡ a
or_zero_right_count n zero h = refl
or_zero_right_count zero (suc a) h = absurd (omega arith)
or_zero_right_count (suc n) (suc a) h =
    omega (arith, or_step (suc a) 0, or_zero_right_count n (suc a / 2) (omega arith))

pub bit_or-zero : (a : ℕ) → bit_or a 0 ≡ a
bit_or-zero a = or_zero_right_count a a (omega arith)

-- A number that fits `k` bits is not changed by a mask of `k` ones.
and_ones_fits : (k r : ℕ) → r < 2 ^ k → bit_and r (2 ^ k - 1) ≡ r
and_ones_fits zero r h = let e : r ≡ 0 = omega arith in rw e refl
and_ones_fits (suc k) r h =
    let two = pow-suc 2 k in
    let pos = one-le-pow k 2 (omega arith) in
    let m : (2 ^ suc k - 1) / 2 ≡ 2 ^ k - 1 = omega arith in
    let ih = and_ones_fits k (r / 2) (omega arith) in
    let s : bit_and r (2 ^ suc k - 1)
        ≡ bit_and (r / 2) ((2 ^ suc k - 1) / 2) * 2 + min (r % 2) ((2 ^ suc k - 1) % 2) =
      and_step r (2 ^ suc k - 1) in
    rw (s, m, ih) (omega arith)

-- `x & (2^k - 1)` keeps the low `k` bits.
pub bit_and-ones : (k q r : ℕ) → r < 2 ^ k → bit_and (q * 2 ^ k + r) (2 ^ k - 1) ≡ r
bit_and-ones k q r h =
    let pos = one-le-pow k 2 (omega arith) in
    let f = bit_and-fields k q r 0 (2 ^ k - 1) h (omega arith) in
    let e : 0 * 2 ^ k + (2 ^ k - 1) ≡ 2 ^ k - 1 = omega arith in
    let f' = rw e at f in rw (f', bit_and-zero q, and_ones_fits k r h) (omega arith)

pub bit_and-mask : (k a : ℕ) → bit_and a (2 ^ k - 1) ≡ a % 2 ^ k
bit_and-mask k a =
    let pos = one-le-pow k 2 (omega arith) in
    let f = bit_and-ones k (a / 2 ^ k) (a % 2 ^ k) (omega arith) in
    let e : a / 2 ^ k * 2 ^ k + a % 2 ^ k ≡ a = grind arith in rw e at f

-- A mask of the high bits clears the low `k`, and `|` puts a field back below.
pub bit_and-high :
    (k q r n : ℕ)
    → r < 2 ^ k
    → q < 2 ^ n
    → bit_and (q * 2 ^ k + r) ((2 ^ n - 1) * 2 ^ k) ≡ q * 2 ^ k
bit_and-high k q r n h hq =
    let pos = one-le-pow k 2 (omega arith) in
    let f = bit_and-fields k q r (2 ^ n - 1) 0 h (omega arith) in
    let e : (2 ^ n - 1) * 2 ^ k + 0 ≡ (2 ^ n - 1) * 2 ^ k = omega arith in
    let f' = rw e at f in rw (f', and_ones_fits n q hq, bit_and-zero r) (omega arith)

pub bit_or-low : (k q r : ℕ) → r < 2 ^ k → bit_or (q * 2 ^ k) r ≡ q * 2 ^ k + r
bit_or-low k q r h =
    let pos = one-le-pow k 2 (omega arith) in
    let f = bit_or-fields k q 0 0 r (omega arith) h in
    let e : q * 2 ^ k + 0 ≡ q * 2 ^ k = omega arith in
    let e' : 0 * 2 ^ k + r ≡ r = omega arith in
    let f' = rw (e, e') at f in rw (f', bit_or-zero q, or_zero r) refl
