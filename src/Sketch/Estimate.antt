-- ===== src/Sketch/Estimate.antt =====
-- src/common/frequency_sketch.rs: what `frequency` estimates. A hash selects four counters at four
-- different positions of their words, `increment` raises each of them, and `frequency` is the least.
use native.Mathlib.Nat.{one-le-pow}
use moka.Base.{
  ℕ, zero, suc, ◌+◌, ◌≤◌, ◌<◌, min, ◌≡◌, refl, inl, inr, Bool-cases, ap, ◌∙◌, ◌≢◌, List, [], ◌∷◌,
  Bool, true, false, ◌&&◌, ◌||◌, ltb, ◌==◌, if◌then◌else◌, length, arith,
}
use moka.Base.Word.{u32_max}
use moka.Sketch.{
  FrequencySketch, index_of, start_of, count_at, frequency_loop, frequency, increment_at,
  increment_loop, increment, count_event,
}
use moka.Sketch.Table.{
  IsReady, counter, counter-le, index_of-lt, start_of_lem, count_at-counter, counter-increment_at,
  increment_at_raised, increment_at-IsReady,
}

-- The counter that a hash selects at a depth.
unfoldable pub selected : FrequencySketch → ℕ → ℕ → ℕ
selected s hash i = counter s (index_of s hash i) (start_of hash + i)

pub selected-le : (s : FrequencySketch) (hash i : ℕ) → selected s hash i ≤ 15
unfolding selected
selected-le s hash i = counter-le s _ _

-- The estimate is the least of the four counters that the hash selects.
pub frequency-selected :
    (s : FrequencySketch) (hash : ℕ)
    → 0 < length s.table
    → frequency s hash
      ≡ min
          (min (selected s hash 0) (selected s hash 1))
          (min (selected s hash 2) (selected s hash 3))
unfolding frequency frequency_loop selected
frequency-selected s hash h = ground (
  arith,
  count_at-counter s hash 0,
  count_at-counter s hash 1,
  count_at-counter s hash 2,
  count_at-counter s hash 3,
  counter-le s (index_of s hash 0) (start_of hash + 0),
)

-- Does `hash` select counter `c` of word `j` at depth `i`?
unfoldable pub selects : FrequencySketch → ℕ → ℕ → ℕ → ℕ → Bool
selects s hash i j c = j == index_of s hash i && c == start_of hash + i

unfoldable pub hits : FrequencySketch → ℕ → ℕ → ℕ → Bool
hits s hash j c =
    selects s hash 0 j c || selects s hash 1 j c || selects s hash 2 j c || selects s hash 3 j c

-- One round of `increment`.
abbrev bumped : FrequencySketch → ℕ → ℕ → FrequencySketch
bumped s hash i = (increment_at s (index_of s hash i) (start_of hash + i)).0

index_of-bumped :
    (s : FrequencySketch) (hash i h d : ℕ) → index_of (bumped s hash i) h d ≡ index_of s h d
unfolding index_of increment_at
index_of-bumped s hash i h d = refl

bumped-IsReady : (s : FrequencySketch) (hash i : ℕ) → i < 4 → IsReady s → IsReady (bumped s hash i)
bumped-IsReady s hash i h r = increment_at-IsReady s _ _ (omega (arith, start_of_lem hash)) r

counter-bumped :
    (s : FrequencySketch) (hash i : ℕ)
    → IsReady s
    → (j c : ℕ)
    → counter (bumped s hash i) j c
      ≡ (if selects s hash i j c then min 15 (counter s j c + 1) else counter s j c)
unfolding selects
counter-bumped s hash i r j c = ground (
  arith,
  counter-increment_at s (index_of s hash i) (start_of hash + i) j c (index_of-lt s hash i r),
)

selects-bumped :
    (s : FrequencySketch) (h k hash i j c : ℕ)
    → selects (bumped s h k) hash i j c ≡ selects s hash i j c
unfolding selects index_of increment_at
selects-bumped s h k hash i j c = refl

-- The four rounds.
unfoldable pub raised : FrequencySketch → ℕ → FrequencySketch
raised s hash = bumped (bumped (bumped (bumped s hash 0) hash 1) hash 2) hash 3

pub raised-IsReady : (s : FrequencySketch) (hash : ℕ) → IsReady s → IsReady (raised s hash)
unfolding raised
raised-IsReady s hash r =
    let r0 = bumped-IsReady s hash 0 (omega arith) r in
    let r1 = bumped-IsReady _ hash 1 (omega arith) r0 in
    let r2 = bumped-IsReady _ hash 2 (omega arith) r1 in bumped-IsReady _ hash 3 (omega arith) r2

exclusive :
    (s : FrequencySketch) (hash j c n : ℕ)
    → let b = λ (i m : ℕ). if selects s hash i j c then min 15 (m + 1) else m in
      b 3 (b 2 (b 1 (b 0 n))) ≡ (if hits s hash j c then min 15 (n + 1) else n)
unfolding selects hits
exclusive s hash j c n = ground arith

-- The four rounds touch different counters, so each counter goes up by at most one.
pub counter-raised :
    (s : FrequencySketch) (hash : ℕ)
    → IsReady s
    → (j c : ℕ)
    → counter (raised s hash) j c
      ≡ (if hits s hash j c then min 15 (counter s j c + 1) else counter s j c)
unfolding raised hits
counter-raised s hash r j c =
    let s0 = bumped s hash 0 in
    let s1 = bumped s0 hash 1 in
    let s2 = bumped s1 hash 2 in
    let r0 = bumped-IsReady s hash 0 (omega arith) r in
    let r1 = bumped-IsReady s0 hash 1 (omega arith) r0 in
    let r2 = bumped-IsReady s1 hash 2 (omega arith) r1 in
    let e1 = selects-bumped s hash 0 hash 1 j c in
    let e2 = selects-bumped s0 hash 1 hash 2 j c ∙ selects-bumped s hash 0 hash 2 j c in
    let e3 =
      selects-bumped s1 hash 2 hash 3 j c
      ∙ selects-bumped s0 hash 1 hash 3 j c
      ∙ selects-bumped s hash 0 hash 3 j c in
    rw
      (
        counter-bumped s2 hash 3 r2 j c,
        counter-bumped s1 hash 2 r1 j c,
        counter-bumped s0 hash 1 r0 j c,
        counter-bumped s hash 0 r j c,
        e1,
        e2,
        e3,
      )
      (exclusive s hash j c (counter s j c))

index_of-raised :
    (s : FrequencySketch) (h hash i : ℕ) → index_of (raised s h) hash i ≡ index_of s hash i
unfolding raised index_of increment_at
index_of-raised s h hash i = refl

selected-raised :
    (s : FrequencySketch) (h : ℕ)
    → IsReady s
    → (hash i : ℕ)
    → selected (raised s h) hash i ≡ (
        if hits s h (index_of s hash i) (start_of hash + i)
        then min 15 (selected s hash i + 1)
        else selected s hash i)
unfolding selected
selected-raised s h r hash i =
    rw (index_of-raised s h hash i) (counter-raised s h r (index_of s hash i) (start_of hash + i))

hits_own :
    (s : FrequencySketch) (hash i : ℕ)
    → i < 4
    → hits s hash (index_of s hash i) (start_of hash + i) ≡ true
unfolding hits selects
hits_own s hash zero h = ground arith
hits_own s hash (suc zero) h = ground arith
hits_own s hash (suc (suc zero)) h = ground arith
hits_own s hash (suc (suc (suc zero))) h = ground arith
hits_own s hash (suc (suc (suc (suc i)))) h = absurd (omega arith)

selected-raised_self :
    (s : FrequencySketch) (hash i : ℕ)
    → i < 4
    → IsReady s
    → selected (raised s hash) hash i ≡ min 15 (selected s hash i + 1)
selected-raised_self s hash i h r = rw (selected-raised s hash r hash i, hits_own s hash i h) refl

pub filled : (s : FrequencySketch) → IsReady s → 0 < length s.table
filled s r = omega (arith, r.sized, one-le-pow r.bits 2 (omega arith))

min_bumped : (a b : ℕ) → min (min 15 (a + 1)) (min 15 (b + 1)) ≡ min 15 (min a b + 1)
min_bumped a b = omega arith

frequency-raised_self :
    (s : FrequencySketch) (hash : ℕ)
    → IsReady s
    → frequency (raised s hash) hash ≡ min 15 (frequency s hash + 1)
frequency-raised_self s hash r =
    let a = λ (i : ℕ) (h : i < 4). selected-raised_self s hash i h r in
    rw
      (
        frequency-selected s hash (filled s r),
        frequency-selected (raised s hash) hash (filled _ (raised-IsReady s hash r)),
        a 0 (omega arith),
        a 1 (omega arith),
        a 2 (omega arith),
        a 3 (omega arith),
      )
      (simp min_bumped)

selected-raised_bounds :
    (s : FrequencySketch) (h : ℕ)
    → IsReady s
    → (hash i : ℕ)
    → (selected s hash i ≤ selected (raised s h) hash i)
      × (selected (raised s h) hash i ≤ selected s hash i + 1)
selected-raised_bounds s h r hash i =
    ground (arith, selected-raised s h r hash i, selected-le s hash i)

frequency-raised_bounds :
    (s : FrequencySketch) (h : ℕ)
    → IsReady s
    → (hash : ℕ)
    → (frequency s hash ≤ frequency (raised s h) hash)
      × (frequency (raised s h) hash ≤ frequency s hash + 1)
frequency-raised_bounds s h r hash =
    let b0 = selected-raised_bounds s h r hash 0 in
    let b1 = selected-raised_bounds s h r hash 1 in
    let b2 = selected-raised_bounds s h r hash 2 in
    let b3 = selected-raised_bounds s h r hash 3 in
    rw
      (
        frequency-selected s hash (filled s r),
        frequency-selected (raised s h) hash (filled _ (raised-IsReady s h r)),
      )
      (omega arith)

-- Did any of the four rounds raise its counter?
unfoldable pub has_room : FrequencySketch → ℕ → Bool
has_room s hash =
    ltb (selected s hash 0) 15
    || ltb (selected s hash 1) 15
    || ltb (selected s hash 2) 15
    || ltb (selected s hash 3) 15

round_raised :
    (s : FrequencySketch) (hash i : ℕ)
    → (increment_at s (index_of s hash i) (start_of hash + i)).1 ≡ ltb (selected s hash i) 15
unfolding selected
round_raised s hash i = increment_at_raised s (index_of s hash i) (start_of hash + i)

unselected :
    (s : FrequencySketch) (hash k i : ℕ)
    → k ≢ i
    → selects s hash k (index_of s hash i) (start_of hash + i) ≡ false
unfolding selects
unselected s hash k i h = ground arith

-- A round does not change the counters of the other depths.
selected-bumped :
    (s : FrequencySketch) (hash k i : ℕ)
    → IsReady s
    → k ≢ i
    → selected (bumped s hash k) hash i ≡ selected s hash i
unfolding selected
selected-bumped s hash k i r h = rw (index_of-bumped s hash k hash i) (
    ground (
      arith,
      counter-bumped s hash k r (index_of s hash i) (start_of hash + i),
      unselected s hash k i h,
    ))

pub increment_loop-raised :
    (s : FrequencySketch) (hash : ℕ)
    → IsReady s
    → increment_loop 4 0 s hash false ≡ (raised s hash, has_room s hash)
unfolding increment_loop raised has_room
increment_loop-raised s hash r =
    let s0 = bumped s hash 0 in
    let s1 = bumped s0 hash 1 in
    let s2 = bumped s1 hash 2 in
    let r0 = bumped-IsReady s hash 0 (omega arith) r in
    let r1 = bumped-IsReady s0 hash 1 (omega arith) r0 in
    let e1 = selected-bumped s hash 0 1 r (omega arith) in
    let e2 =
      selected-bumped s0 hash 1 2 r0 (omega arith) ∙ selected-bumped s hash 0 2 r (omega arith) in
    let e3 =
      selected-bumped s1 hash 2 3 r1 (omega arith)
      ∙ selected-bumped s0 hash 1 3 r0 (omega arith)
      ∙ selected-bumped s hash 0 3 r (omega arith) in
    let test = λ (m : ℕ). ltb m 15 in
    rw
      (
        round_raised s hash 0,
        round_raised s0 hash 1 ∙ ap test e1,
        round_raised s1 hash 2 ∙ ap test e2,
        round_raised s2 hash 3 ∙ ap test e3,
      )
      refl

-- Short of the sample size, an event only adds one to the count.
pub count_event_quiet :
    (s : FrequencySketch)
    → s.size + 1 < s.sample_size
    → s.sample_size ≤ u32_max
    → count_event s ≡ record s { size = s.size + 1 }
unfolding count_event
count_event_quiet s h k = ground arith

frequency_sized :
    (s : FrequencySketch) (n hash : ℕ) → frequency (record s { size = n }) hash ≡ frequency s hash
unfolding frequency frequency_loop count_at index_of
frequency_sized s n hash = refl

sized_as :
    (s : FrequencySketch) (h : ℕ)
    → ((raised s h).size ≡ s.size) × ((raised s h).sample_size ≡ s.sample_size)
unfolding raised increment_at
sized_as s h = (refl, refl)

-- An event that does not complete the sample.
unfoldable pub quiet : FrequencySketch → ℕ → FrequencySketch
quiet s h = if has_room s h then record (raised s h) { size = s.size + 1 } else raised s h

pub increment-quiet :
    (s : FrequencySketch) (h : ℕ)
    → IsReady s
    → s.size + 1 < s.sample_size
    → s.sample_size ≤ u32_max
    → increment s h ≡ quiet s h
unfolding increment quiet
increment-quiet s h r b k =
    let z = sized_as s h in
    rw (increment_loop-raised s h r) (
      ground (
        arith,
        filled s r,
        count_event_quiet (raised s h) (omega arith) (omega arith),
        sized_as s h,
      ))

frequency-quiet :
    (s : FrequencySketch) (h hash : ℕ) → frequency (quiet s h) hash ≡ frequency (raised s h) hash
unfolding quiet
frequency-quiet s h hash = ground (arith, frequency_sized (raised s h) (s.size + 1) hash)

module _ (s : FrequencySketch) (h : ℕ) (r : IsReady s) (b : s.size + 1 < s.sample_size)
    (k : s.sample_size ≤ u32_max) where
  -- As long as the sample is not complete, an event raises the estimate of its own hash by one, up
  -- to 15.
  pub frequency-increment_self : frequency (increment s h) h ≡ min 15 (frequency s h + 1)
  frequency-increment_self =
      rw (increment-quiet s h r b k, frequency-quiet s h h) (frequency-raised_self s h r)

  -- It never lowers the estimate of another hash, and raises it by one at most.
  pub frequency-increment_bounds :
      (hash : ℕ)
      → (frequency s hash ≤ frequency (increment s h) hash)
        × (frequency (increment s h) hash ≤ frequency s hash + 1)
  frequency-increment_bounds hash =
      rw (increment-quiet s h r b k, frequency-quiet s h hash) (frequency-raised_bounds s h r hash)

quiet_facts :
    (s : FrequencySketch) (h : ℕ)
    → IsReady s
    → ((quiet s h).size ≤ s.size + 1) × ((quiet s h).sample_size ≡ s.sample_size)
unfolding quiet
quiet_facts s h r = ground (arith, sized_as s h)

ready_sized : (s : FrequencySketch) (n : ℕ) → IsReady s → IsReady (record s { size = n })
ready_sized s n r = record { bits = r.bits; sized = r.sized; masked = r.masked; words = r.words }

pub quiet-IsReady : (s : FrequencySketch) (h : ℕ) → IsReady s → IsReady (quiet s h)
unfolding quiet
quiet-IsReady s h r = elim (Bool-cases (has_room s h)) [
  | inl e ↦ rw e (ready_sized (raised s h) (s.size + 1) (raised-IsReady s h r))
  | inr e ↦ rw e (raised-IsReady s h r)
]

-- A stream of events, and the number of times that a hash occurs in it.
unfoldable pub run : List ℕ → FrequencySketch → FrequencySketch
run [] s = s
run (h ∷ hs) s = run hs (increment s h)

unfoldable pub occurrences : ℕ → List ℕ → ℕ
occurrences hash [] = 0
occurrences hash (h ∷ hs) = (if h == hash then 1 else 0) + occurrences hash hs

-- The estimate is never below the number of events of the hash that the stream holds, up to 15, and
-- never above the number of all events, as long as the stream does not complete the sample.
pub frequency-run_bounds :
    (hs : List ℕ) (s : FrequencySketch) (hash : ℕ)
    → IsReady s
    → s.size + length hs < s.sample_size
    → s.sample_size ≤ u32_max
    → (min 15 (frequency s hash + occurrences hash hs) ≤ frequency (run hs s) hash)
      × (frequency (run hs s) hash ≤ frequency s hash + length hs)
unfolding run occurrences
frequency-run_bounds [] s hash r b k = (omega arith, omega arith)
frequency-run_bounds (h ∷ hs) s hash r b k =
    let here : s.size + 1 < s.sample_size = omega arith in
    let e = increment-quiet s h r here k in
    let q = quiet_facts s h r in
    let ready : IsReady (increment s h) = rw e (quiet-IsReady s h r) in
    let small : (increment s h).size + length hs < (increment s h).sample_size =
      rw e (omega arith) in
    let bound : (increment s h).sample_size ≤ u32_max = rw e (omega arith) in
    ground (
      arith,
      frequency-run_bounds hs (increment s h) hash ready small bound,
      frequency-increment_self s h r here k,
      frequency-increment_bounds s h r here k hash,
    )
