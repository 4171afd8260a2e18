-- ===== src/TimerWheel/Links.antt =====
-- src/common/timer_wheel.rs: `schedule`, `deschedule` and `reschedule` by the pointer to a node.
use moka.Base.{
  ℕ, zero, suc, ◌<◌, ◌≡◌, refl, ap, ◌≢◌, ◌⊎◌, List, [], ◌∷◌, true, none, some, ◌==◌, length, get_or,
  set, length-replicate, arith,
}
use moka.Time.{Instant}
use moka.EntryInfo.{expiration_state}
use moka.Concurrent.{Shared}
use moka.Queue.{Queue, find, unlink, push_back}
use moka.TimerWheel.{
  TimerWheel, TimerNode, entry, bucket, set_bucket, bucket_counts, bucket_indices, find_in, node_at,
  schedule, deschedule, unlink_timer, enable, new_wheel, wheel_count,
}
use moka.TimerWheel.Buckets.{bucket_indices_bounds}

-- The wheels of an enabled timer wheel, with their numbers of buckets.
abbrev pub IsShaped : TimerWheel → Type 0
IsShaped w =
    (length w.wheels ≡ wheel_count)
    × ((level : ℕ) → level < wheel_count → length (get_or w.wheels level []) ≡ bucket_counts level)

module _ {ℓ} {A : Type ℓ} where
  set-set : (xs : List A) (i : ℕ) (u v : A) → set (set xs i u) i v ≡ set xs i v
  set-set [] i u v = refl
  set-set (x ∷ xs) zero u v = refl
  set-set (x ∷ xs) (suc i) u v = ap (◌∷◌ x) (set-set xs i u v)

  set-get_or : (xs : List A) (i : ℕ) (d : A) → set xs i (get_or xs i d) ≡ xs
  set-get_or [] i d = refl
  set-get_or (x ∷ xs) zero d = refl
  set-get_or (x ∷ xs) (suc i) d = ap (◌∷◌ x) (set-get_or xs i d)

  get_or-set_self : (xs : List A) (i : ℕ) (v d : A) → i < length xs → get_or (set xs i v) i d ≡ v
  get_or-set_self [] i v d h = absurd (omega arith)
  get_or-set_self (x ∷ xs) zero v d h = refl
  get_or-set_self (x ∷ xs) (suc i) v d h = get_or-set_self xs i v d (omega arith)

find-push :
    (a : ℕ) (n : TimerNode) (q : Queue TimerNode)
    → find a q ≡ none
    → find a (push_back a n q) ≡ some n
unfolding find
find-push a n [] h = ground arith
find-push a n ((b, m) ∷ q) h = ground (arith, find-push a n q)

unlink-push :
    (a : ℕ) (n : TimerNode) (q : Queue TimerNode) → find a q ≡ none → unlink a (push_back a n q) ≡ q
unfolding find unlink
unlink-push a n [] h = ground arith
unlink-push a n ((b, m) ∷ q) h = ground (arith, unlink-push a n q)

find_in-head :
    (a : ℕ) (q : Queue TimerNode) (qs : List (Queue TimerNode))
    → find_in a (q ∷ qs) ≡ none
    → (find a q ≡ none) × (find_in a qs ≡ none)
unfolding find_in
find_in-head a q qs h = ground arith

find_in-push :
    (a : ℕ) (n : TimerNode) (qs : List (Queue TimerNode)) (i : ℕ)
    → find_in a qs ≡ none
    → i < length qs
    → (find_in a (set qs i (push_back a n (get_or qs i []))) ≡ some n)
      × (find a (get_or qs i []) ≡ none)
unfolding find_in
find_in-push a n [] i h k = absurd (omega arith)
find_in-push a n (q ∷ qs) zero h k =
    let (f, rest) = find_in-head a q qs h in (rw (find-push a n q f, find_in) refl, f)
find_in-push a n (q ∷ qs) (suc i) h k =
    let (f, rest) = find_in-head a q qs h in
    let (here, absent) = find_in-push a n qs i rest (omega arith) in (rw (f, find_in) here, absent)

node_at-head :
    (a : ℕ) (qs : List (Queue TimerNode)) (ws : List (List (Queue TimerNode)))
    → node_at a (qs ∷ ws) ≡ none
    → (find_in a qs ≡ none) × (node_at a ws ≡ none)
unfolding node_at
node_at-head a qs ws h = ground arith

node_at-push :
    (a : ℕ) (n : TimerNode) (ws : List (List (Queue TimerNode))) (l i : ℕ)
    → node_at a ws ≡ none
    → l < length ws
    → i < length (get_or ws l [])
    → (node_at a (set ws l (set (get_or ws l []) i (push_back a n (get_or (get_or ws l []) i []))))
        ≡ some n)
      × (find a (get_or (get_or ws l []) i []) ≡ none)
unfolding node_at
node_at-push a n [] l i h k j = absurd (omega arith)
node_at-push a n (qs ∷ ws) zero i h k j =
    let (f, rest) = node_at-head a qs ws h in
    let (here, absent) = find_in-push a n qs i f j in (rw (here, node_at) refl, absent)
node_at-push a n (qs ∷ ws) (suc l) i h k j =
    let (f, rest) = node_at-head a qs ws h in
    let (here, absent) = node_at-push a n ws l i rest (omega arith) j in
    (rw (f, node_at) here, absent)

-- The bucket that `deschedule` restores.
restore :
    (w : TimerWheel) (l i : ℕ) (q : Queue TimerNode)
    → l < length w.wheels
    → i < length (get_or w.wheels l [])
    → set_bucket (set_bucket w l i q) l i (bucket w l i) ≡ w
restore w l i q h k =
    let e = get_or-set_self w.wheels l (set (get_or w.wheels l []) i q) [] h in
    rw (e, set-set, set-set, set-get_or, set-get_or) refl

-- The wheel after `schedule` has put a node at a position.
abbrev placed : TimerWheel → ℕ → ℕ → ℕ → TimerNode → TimerWheel
placed w l i addr n = set_bucket w l i (push_back addr n (bucket w l i))

unlink_timer-placed :
    (w : TimerWheel) (l i addr gen info nodes : ℕ)
    → l < length w.wheels
    → i < length (get_or w.wheels l [])
    → find addr (bucket w l i) ≡ none
    → let n = entry (some (l, i)) gen info nodes in
      unlink_timer (placed w l i addr n) addr n ≡ (w, entry none gen info nodes, true)
unfolding unlink_timer
unlink_timer-placed w l i addr gen info nodes hl hi absent =
    let n = entry (some (l, i)) gen info nodes in
    let q = push_back addr n (bucket w l i) in
    let a = get_or-set_self w.wheels l (set (get_or w.wheels l []) i q) [] hl in
    let b = get_or-set_self (get_or w.wheels l []) i q [] hi in
    let u = unlink-push addr n (bucket w l i) absent in
    let e : bucket (placed w l i addr n) l i ≡ q = rw (a, b) refl in
    rw (e, u, restore w l i q hl hi) refl

module _ {ℓ} {K : Type ℓ} (sh : Shared K) (w : TimerWheel) (addr info nodes gen : ℕ)
    (t : Instant) where
  -- The node that `schedule` makes.
  abbrev scheduled : TimerNode
  scheduled = entry (some ((bucket_indices w t).0, (bucket_indices w t).1)) gen info nodes

  schedule_lem :
      expiration_state (sh.infos info) ≡ (some t, gen)
      → schedule sh w addr info nodes gen
        ≡ (placed w (bucket_indices w t).0 (bucket_indices w t).1 addr scheduled, some addr)
  unfolding schedule
  schedule_lem h = let e : (gen == gen) ≡ true = ground arith in rw (h, schedule) (rw e refl)

  -- Nothing is scheduled for an entry without a time, or whose generation has changed since.
  pub schedule_refused :
      (expiration_state (sh.infos info)).0 ≡ none ⊎ (expiration_state (sh.infos info)).1 ≢ gen
      → schedule sh w addr info nodes gen ≡ (w, none)
  unfolding schedule
  schedule_refused h = ground arith

  module _ (shaped : IsShaped w) (fresh : node_at addr w.wheels ≡ none)
      (state : expiration_state (sh.infos info) ≡ (some t, gen)) where
    here :
        (node_at addr (placed w (bucket_indices w t).0 (bucket_indices w t).1 addr scheduled).wheels
          ≡ some scheduled)
        × (find addr (bucket w (bucket_indices w t).0 (bucket_indices w t).1) ≡ none)
    here =
        let b = bucket_indices_bounds w t in
        node_at-push addr scheduled w.wheels _ _ fresh (rw (shaped.0) b.0)
          (rw (shaped.1 (bucket_indices w t).0 b.0) b.1)

    -- A timer that is scheduled under a fresh address is found there, at the position of its time,
    -- and descheduling it by that address and its generation restores the wheel.
    pub deschedule-schedule :
        let (w', node) = schedule sh w addr info nodes gen in
        (node ≡ some addr)
        × (node_at addr w'.wheels ≡ some scheduled)
        × (deschedule w' addr gen ≡ some (w, true))
    unfolding deschedule
    deschedule-schedule =
        let b = bucket_indices_bounds w t in
        let u =
          unlink_timer-placed w (bucket_indices w t).0 (bucket_indices w t).1 addr gen info nodes
            (rw (shaped.0) b.0) (rw (shaped.1 (bucket_indices w t).0 b.0) b.1) here.1 in
        let e : (gen == gen) ≡ true = ground arith in
        rw (schedule_lem state) (refl, here.0, rw (here.0, deschedule) (rw (u, e) refl))

replicate-shape : (n : ℕ) → length (new_wheel n) ≡ n
unfolding new_wheel
replicate-shape n = length-replicate n _

-- `enable` makes the five wheels with their numbers of buckets.
pub enable-IsShaped : (w : TimerWheel) → IsShaped (enable w)
unfolding enable
enable-IsShaped w = (refl, counts)
  where
    counts :
        (level : ℕ)
        → level < wheel_count
        → length (get_or (enable w).wheels level []) ≡ bucket_counts level
    counts zero h = replicate-shape 64
    counts (suc zero) h = replicate-shape 64
    counts (suc (suc zero)) h = replicate-shape 32
    counts (suc (suc (suc zero))) h = replicate-shape 4
    counts (suc (suc (suc (suc zero)))) h = replicate-shape 1
    counts (suc (suc (suc (suc (suc level))))) h = absurd (omega arith)
