-- ===== src/TimerWheel/Advance.antt =====
-- src/common/timer_wheel.rs: the buckets that the iterator visits on a level, and the rotation that
-- brings a bucket's sentinel to its back.
use mathlib.Core.List.{append_assoc}
use moka.Base.{
  ℕ, zero, suc, ◌+◌, ◌-◌, ◌/◌, ◌%◌, ◌^◌, ◌≤◌, ◌<◌, min, ◌≡◌, refl, ap, ◌∙◌, [], ◌∷◌, ◌++◌, true,
  false, some, bit_and, leb, length, arith,
}
use moka.Queue.{Queue, move_front_to_back, peek_back}
use moka.TimerWheel.{
  TimerNode, sentinel, is_sentinel, bucket_counts, shift, time_nanos, tick_index, rotate,
}
use moka.TimerWheel.Buckets.{tick_index_lem, mask_lem}
use moka.TimerWheel.Iter.{TimerEventsIter, enter_level, previous_ticks, current_ticks}

covers :
    (level p t c : ℕ)
    → p ≤ t
    → t ≤ c
    → let n = bucket_counts level in
      let k = (t - p) % n in (k < min (c - p + 1) n) × ((p % n + k) % n ≡ t % n)
covers zero p t c h k = (omega arith, omega arith)
covers (suc zero) p t c h k = (omega arith, omega arith)
covers (suc (suc zero)) p t c h k = (omega arith, omega arith)
covers (suc (suc (suc zero))) p t c h k = (omega arith, omega arith)
covers (suc (suc (suc (suc level)))) p t c h k = (omega arith, omega arith)

div_mono : (level a b : ℕ) → a ≤ b → a / 2 ^ shift level ≤ b / 2 ^ shift level
div_mono zero a b h = omega arith
div_mono (suc zero) a b h = omega arith
div_mono (suc (suc zero)) a b h = omega arith
div_mono (suc (suc (suc zero))) a b h = omega arith
div_mono (suc (suc (suc (suc level)))) a b h = omega arith

module _ {ℓ} {K : Type ℓ} (it : TimerEventsIter K) where
  abbrev entered : TimerEventsIter K
  entered = record it {
    index_mask = bucket_counts it.level - 1;
    index = bit_and (previous_ticks it) (bucket_counts it.level - 1);
    end_index =
        bit_and (previous_ticks it) (bucket_counts it.level - 1)
        + min (current_ticks it - previous_ticks it + 1) (bucket_counts it.level);
    is_new_level = false;
    is_new_index = true;
  }

  enter_level_ticks : previous_ticks it < current_ticks it → enter_level it ≡ entered
  unfolding enter_level
  enter_level_ticks h =
      let e : leb (current_ticks it) (previous_ticks it) ≡ false = ground arith in rw e refl

  -- On a level that is entered, every timer whose time lies between the last advance and this one
  -- is in a bucket that is visited: some step from the first index reaches its index.
  pub enter_level_visits :
      (nanos : ℕ)
      → time_nanos it.timer_wheel it.previous_time ≤ nanos
      → nanos ≤ time_nanos it.timer_wheel it.current_time
      → previous_ticks it < current_ticks it
      → let it' = enter_level it in
        (k : ℕ) × (it'.index + k < it'.end_index)
        × (bit_and (it'.index + k) it'.index_mask ≡ tick_index it.level nanos)
  enter_level_visits nanos lo hi ticks =
      let p = previous_ticks it in
      let t = nanos / 2 ^ shift it.level in
      let c =
        covers it.level p t (current_ticks it) (div_mono it.level _ nanos lo)
          (div_mono it.level nanos _ hi) in
      let k = (t - p) % bucket_counts it.level in
      rw (enter_level_ticks ticks) (
        k,
        omega (arith, c.0),
        rw (mask_lem it.level p, mask_lem it.level, tick_index_lem it.level nanos) c.1,
      )

-- A bucket's part behind the sentinel: timers only.
abbrev pub NoSentinel : Queue TimerNode → Type 0
NoSentinel [] = Unit {0}
NoSentinel ((a, n) ∷ q) = (is_sentinel n ≡ false) × NoSentinel q

NoSentinel-push :
    (q : Queue TimerNode) (a : ℕ) (n : TimerNode)
    → is_sentinel n ≡ false
    → NoSentinel q
    → NoSentinel (q ++ (a, n) ∷ [])
NoSentinel-push [] a n h d = (h, tt)
NoSentinel-push ((b, m) ∷ q) a n h d = (d.0, NoSentinel-push q a n h d.1)

-- The last node of a deque.
peek_back-append :
    (p : Queue TimerNode) (m : ℕ × TimerNode) (q : Queue TimerNode)
    → peek_back (p ++ m ∷ q) ≡ peek_back (m ∷ q)
unfolding peek_back
peek_back-append [] m q = refl
peek_back-append (n ∷ []) m q = refl
peek_back-append (n ∷ n' ∷ p) m q = peek_back-append (n' ∷ p) m q

last_timer :
    (b : ℕ) (m : TimerNode) (q : Queue TimerNode)
    → NoSentinel ((b, m) ∷ q)
    → (a : ℕ) × (n : TimerNode) × (peek_back ((b, m) ∷ q) ≡ some (a, n)) × (is_sentinel n ≡ false)
unfolding peek_back
last_timer b m [] d = (b, m, refl, d.0)
last_timer b m ((c, l) ∷ q) d = last_timer c l q d.1

one_back : (s : ℕ) → peek_back ((s, sentinel) ∷ []) ≡ some (s, sentinel)
unfolding peek_back
one_back s = refl

two_back :
    (s b : ℕ) (m : TimerNode) (q : Queue TimerNode)
    → peek_back ((s, sentinel) ∷ (b, m) ∷ q) ≡ peek_back ((b, m) ∷ q)
unfolding peek_back
two_back s b m q = refl

rotate_done :
    (fuel : ℕ) (p : Queue TimerNode) (s : ℕ)
    → rotate (suc fuel) (p ++ (s, sentinel) ∷ []) ≡ some (p ++ (s, sentinel) ∷ [])
unfolding rotate
rotate_done fuel p s =
    let e : peek_back (p ++ (s, sentinel) ∷ []) ≡ some (s, sentinel) =
      peek_back-append p (s, sentinel) [] ∙ one_back s in
    rw (e, rotate) refl

-- A round of the rotation while a timer is at the back.
rotate_round :
    (fuel : ℕ) (p q : Queue TimerNode) (s b : ℕ) (m : TimerNode)
    → NoSentinel ((b, m) ∷ q)
    → rotate (suc fuel) (p ++ (s, sentinel) ∷ (b, m) ∷ q)
      ≡ rotate fuel (move_front_to_back (p ++ (s, sentinel) ∷ (b, m) ∷ q))
unfolding rotate
rotate_round fuel p q s b m d =
    let (a, n, back, timer) = last_timer b m q d in
    let e : peek_back (p ++ (s, sentinel) ∷ (b, m) ∷ q) ≡ some (a, n) =
      peek_back-append p (s, sentinel) ((b, m) ∷ q) ∙ two_back s b m q ∙ back in
    rw (e, rotate) (rw timer refl)

rotate_front :
    (fuel s : ℕ) (q : Queue TimerNode)
    → rotate (suc fuel) (move_front_to_back ((s, sentinel) ∷ q)) ≡ some (q ++ (s, sentinel) ∷ [])
unfolding move_front_to_back
rotate_front fuel s q = rotate_done fuel q s

rotate_next :
    (fuel : ℕ) (p q : Queue TimerNode) (s c : ℕ) (n : TimerNode)
    → rotate fuel (move_front_to_back ((c, n) ∷ (p ++ (s, sentinel) ∷ q)))
      ≡ rotate fuel (p ++ (s, sentinel) ∷ (q ++ (c, n) ∷ []))
unfolding move_front_to_back
rotate_next fuel p q s c n = ap (rotate fuel) (append_assoc p ((s, sentinel) ∷ q) ((c, n) ∷ []))

-- With enough fuel the rotation ends with the sentinel at the back, and the timers that stood behind
-- the sentinel come before those that stood in front of it: no timer is lost, and each part keeps
-- its order.
pub rotate_lem :
    (p q : Queue TimerNode) (s fuel : ℕ)
    → NoSentinel p
    → NoSentinel q
    → length p + 1 < fuel
    → rotate fuel (p ++ (s, sentinel) ∷ q) ≡ some (q ++ (p ++ (s, sentinel) ∷ []))
rotate_lem p q s zero hp hq f = absurd (omega arith)
rotate_lem p [] s (suc fuel) hp hq f = rotate_done fuel p s
rotate_lem [] ((b, m) ∷ q) s (suc zero) hp hq f = absurd (omega arith)
rotate_lem [] ((b, m) ∷ q) s (suc (suc fuel)) hp hq f =
    rotate_round (suc fuel) [] q s b m hq ∙ rotate_front fuel s ((b, m) ∷ q)
rotate_lem ((c, n) ∷ p) ((b, m) ∷ q) s (suc fuel) hp hq f =
    rotate_round fuel ((c, n) ∷ p) q s b m hq
    ∙ rotate_next fuel p ((b, m) ∷ q) s c n
    ∙ rotate_lem p ((b, m) ∷ (q ++ (c, n) ∷ [])) s fuel hp.1 (hq.0, NoSentinel-push q c n hp.0 hq.1)
        (omega arith)
    ∙ ap some (append_assoc ((b, m) ∷ q) ((c, n) ∷ []) (p ++ (s, sentinel) ∷ []))
