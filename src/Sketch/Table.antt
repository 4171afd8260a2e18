-- ===== src/Sketch/Table.antt =====
-- src/common/frequency_sketch.rs: the table as a matrix of counters, and what `increment_at` does
-- to it. `counter s j c` is counter `c` of word `j`.
use native.Mathlib.Nat.{one-le-pow}
use moka.Base.{
  ℕ, zero, suc, ◌+◌, ◌-◌, ◌*◌, ◌%◌, ◌^◌, ◌≤◌, ◌<◌, min, ◌≡◌, refl, List, [], ◌∷◌, ◌&&◌, ltb, ◌==◌,
  if◌then◌else◌, length, length-set, get_or, set, arith,
}
use moka.Base.Bits.{bit_and-mask}
use moka.Sketch.{FrequencySketch, index_of, start_of, bump, increment_at, count_at}
use moka.Sketch.Word.{nibble, nibble-le, nibble-bump, bump_raised, bump_fits, shift-nibble}

abbrev pub AllWords : List ℕ → Type 0
AllWords [] = Unit {0}
AllWords (w ∷ ws) = (w < 2 ^ 64) × AllWords ws

-- A sketch after `ensure_capacity`: the table's length is a power of two, the mask selects an index
-- of it, and its entries are 64-bit words.
pub record IsReady (s : FrequencySketch) : Type 0 where
  pub bits : ℕ
  pub sized : length s.table ≡ 2 ^ bits
  pub masked : s.table_mask ≡ 2 ^ bits - 1
  pub words : AllWords s.table

unfoldable pub counter : FrequencySketch → ℕ → ℕ → ℕ
counter s j c = nibble (get_or s.table j 0) c

pub counter-le : (s : FrequencySketch) (j c : ℕ) → counter s j c ≤ 15
unfolding counter
counter-le s j c = nibble-le (get_or s.table j 0) c

-- The index of every counter that a hash selects is within the table.
pub index_of-lt :
    (s : FrequencySketch) (hash depth : ℕ) → IsReady s → index_of s hash depth < length s.table
unfolding index_of
index_of-lt s hash depth r =
    let pos = one-le-pow r.bits 2 (omega arith) in
    rw (r.masked, bit_and-mask r.bits, r.sized) (omega arith)

pub start_of_lem : (hash : ℕ) → start_of hash ≡ hash % 4 * 4
unfolding start_of
start_of_lem hash = rw (bit_and-mask 2 hash) refl

-- What `frequency` reads at a depth is the counter that the hash selects there.
pub count_at-counter :
    (s : FrequencySketch) (hash i : ℕ)
    → count_at s hash i ≡ counter s (index_of s hash i) (start_of hash + i)
unfolding count_at counter
count_at-counter s hash i = shift-nibble (get_or s.table (index_of s hash i) 0) (start_of hash + i)

get_or-set :
    (ws : List ℕ) (i j v : ℕ)
    → i < length ws
    → get_or (set ws i v) j 0 ≡ (if j == i then v else get_or ws j 0)
get_or-set [] i j v h = absurd (omega arith)
get_or-set (w ∷ ws) zero zero v h = refl
get_or-set (w ∷ ws) zero (suc j) v h = ground arith
get_or-set (w ∷ ws) (suc i) zero v h = ground arith
get_or-set (w ∷ ws) (suc i) (suc j) v h = ground (arith, get_or-set ws i j v (omega arith))

AllWords-set : (ws : List ℕ) (i v : ℕ) → v < 2 ^ 64 → AllWords ws → AllWords (set ws i v)
AllWords-set [] i v h a = tt
AllWords-set (w ∷ ws) zero v h a = (h, a.1)
AllWords-set (w ∷ ws) (suc i) v h a = (a.0, AllWords-set ws i v h a.1)

pub get_or-lt : (ws : List ℕ) (i : ℕ) → AllWords ws → get_or ws i 0 < 2 ^ 64
get_or-lt [] i a = omega arith
get_or-lt (w ∷ ws) zero a = a.0
get_or-lt (w ∷ ws) (suc i) a = get_or-lt ws i a.1

module _ (s : FrequencySketch) (i c : ℕ) where
  -- `increment_at` raises one counter, up to 15, and leaves the others.
  pub counter-increment_at :
      (j d : ℕ)
      → i < length s.table
      → counter (increment_at s i c).0 j d
        ≡ (if j == i && d == c then min 15 (counter s i c + 1) else counter s j d)
  unfolding counter increment_at
  counter-increment_at j d h = ground (
    arith,
    get_or-set s.table i j (bump (get_or s.table i 0) c).0 h,
    nibble-bump (get_or s.table i 0) c d,
  )

  pub increment_at_raised : (increment_at s i c).1 ≡ ltb (counter s i c) 15
  unfolding counter increment_at
  increment_at_raised = bump_raised (get_or s.table i 0) c

  pub increment_at-IsReady : c < 16 → IsReady s → IsReady (increment_at s i c).0
  unfolding increment_at
  increment_at-IsReady h r = record {
    bits = r.bits;
    sized = rw length-set r.sized;
    masked = r.masked;
    words =
        AllWords-set s.table i _ (bump_fits (get_or s.table i 0) c h (get_or-lt s.table i r.words))
          r.words;
  }
