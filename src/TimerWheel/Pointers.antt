-- ===== src/TimerWheel/Pointers.antt =====
-- src/common/timer_wheel.rs: what the pointers to timer nodes reach after a bucket has changed.
use moka.Base.{
  ℕ, zero, suc, ◌<◌, ◌≡◌, refl, ap, ◌∙◌, ◌≢◌, inl, inr, List, [], ◌∷◌, Option, none, some, ◌==◌,
  length, get_or, set, arith, Bool-cases, length-set, ℕ_discrete,
}
use moka.Queue.{Queue, find, unlink, push_back}
use moka.TimerWheel.{TimerWheel, TimerNode, sentinel, entry, bucket, set_bucket, find_in, node_at}
use moka.TimerWheel.Links.{IsShaped}

find_in-set :
    (a : ℕ) (qs : List (Queue TimerNode)) (i : ℕ) (q : Queue TimerNode)
    → find a q ≡ find a (get_or qs i [])
    → find_in a (set qs i q) ≡ find_in a qs
unfolding find_in
find_in-set a [] i q h = refl
find_in-set a (p ∷ qs) zero q h = rw (h, find_in) refl
find_in-set a (p ∷ qs) (suc i) q h = ground (arith, find_in-set a qs i q h)

node_at-set :
    (a : ℕ) (ws : List (List (Queue TimerNode))) (l : ℕ) (qs : List (Queue TimerNode))
    → find_in a qs ≡ find_in a (get_or ws l [])
    → node_at a (set ws l qs) ≡ node_at a ws
unfolding node_at
node_at-set a [] l qs h = refl
node_at-set a (p ∷ ws) zero qs h = rw (h, node_at) refl
node_at-set a (p ∷ ws) (suc l) qs h = ground (arith, node_at-set a ws l qs h)

-- A change of a bucket that keeps what an address points to there keeps it in the wheel.
pub node_at-set_bucket :
    (w : TimerWheel) (a l i : ℕ) (q : Queue TimerNode)
    → find a q ≡ find a (bucket w l i)
    → node_at a (set_bucket w l i q).wheels ≡ node_at a w.wheels
node_at-set_bucket w a l i q h =
    node_at-set a w.wheels l (set (get_or w.wheels l []) i q)
      (find_in-set a (get_or w.wheels l []) i q h)

find_in_of :
    (a : ℕ) (qs : List (Queue TimerNode)) (i : ℕ) (q : Queue TimerNode)
    → i < length qs
    → find a q ≢ none
    → find_in a (set qs i q) ≢ none
unfolding find_in
find_in_of a [] i q h n = absurd (omega arith)
find_in_of a (p ∷ qs) zero q h n = ground (arith, n)
find_in_of a (p ∷ qs) (suc i) q h n = ground (arith, find_in_of a qs i q)

node_at_of :
    (a : ℕ) (ws : List (List (Queue TimerNode))) (l : ℕ) (qs : List (Queue TimerNode))
    → l < length ws
    → find_in a qs ≢ none
    → node_at a (set ws l qs) ≢ none
unfolding node_at
node_at_of a [] l qs h n = absurd (omega arith)
node_at_of a (p ∷ ws) zero qs h n = ground (arith, n)
node_at_of a (p ∷ ws) (suc l) qs h n = ground (arith, node_at_of a ws l qs)

-- What stands in a bucket is found in the wheel.
pub node_at_bucket :
    (w : TimerWheel) (a l i : ℕ) (q : Queue TimerNode)
    → l < length w.wheels
    → i < length (get_or w.wheels l [])
    → find a q ≢ none
    → node_at a (set_bucket w l i q).wheels ≢ none
node_at_bucket w a l i q hl hi n =
    node_at_of a w.wheels l (set (get_or w.wheels l []) i q) hl
      (find_in_of a (get_or w.wheels l []) i q hi n)

-- Sentinels stand at address 0 only.
abbrev pub SentinelsAtZero : Queue TimerNode → Type 0
SentinelsAtZero [] = Unit {0}
SentinelsAtZero ((a, n) ∷ q) = (n ≡ sentinel → a ≡ 0) × SentinelsAtZero q

abbrev pub AllBuckets : List (Queue TimerNode) → Type 0
AllBuckets [] = Unit {0}
AllBuckets (q ∷ qs) = SentinelsAtZero q × AllBuckets qs

abbrev pub AllWheels : List (List (Queue TimerNode)) → Type 0
AllWheels [] = Unit {0}
AllWheels (w ∷ ws) = AllBuckets w × AllWheels ws

SentinelsAtZero-find :
    (a : ℕ) (q : Queue TimerNode) → SentinelsAtZero q → find a q ≡ some sentinel → a ≡ 0
unfolding find
SentinelsAtZero-find a [] h f = cc
SentinelsAtZero-find a ((b, n) ∷ q) h f = ground (arith, h.0, SentinelsAtZero-find a q h.1)

find_in_sentinel :
    (a : ℕ) (qs : List (Queue TimerNode)) → AllBuckets qs → find_in a qs ≡ some sentinel → a ≡ 0
unfolding find_in
find_in_sentinel a [] h f = cc
find_in_sentinel a (q ∷ qs) h f =
    ground (arith, SentinelsAtZero-find a q h.0, find_in_sentinel a qs h.1)

-- A pointer other than 0 does not reach a sentinel.
pub node_at_sentinel :
    (a : ℕ) (ws : List (List (Queue TimerNode)))
    → AllWheels ws
    → node_at a ws ≡ some sentinel
    → a ≡ 0
unfolding node_at
node_at_sentinel a [] h f = cc
node_at_sentinel a (w ∷ ws) h f =
    ground (arith, find_in_sentinel a w h.0, node_at_sentinel a ws h.1)

AllBuckets-get_or :
    (qs : List (Queue TimerNode)) (i : ℕ) → AllBuckets qs → SentinelsAtZero (get_or qs i [])
AllBuckets-get_or [] i h = tt
AllBuckets-get_or (q ∷ qs) zero h = h.0
AllBuckets-get_or (q ∷ qs) (suc i) h = AllBuckets-get_or qs i h.1

AllWheels-get_or :
    (ws : List (List (Queue TimerNode))) (l : ℕ) → AllWheels ws → AllBuckets (get_or ws l [])
AllWheels-get_or [] l h = tt
AllWheels-get_or (w ∷ ws) zero h = h.0
AllWheels-get_or (w ∷ ws) (suc l) h = AllWheels-get_or ws l h.1

AllBuckets-set :
    (qs : List (Queue TimerNode)) (i : ℕ) (q : Queue TimerNode)
    → AllBuckets qs
    → SentinelsAtZero q
    → AllBuckets (set qs i q)
AllBuckets-set [] i q h g = tt
AllBuckets-set (p ∷ qs) zero q h g = (g, h.1)
AllBuckets-set (p ∷ qs) (suc i) q h g = (h.0, AllBuckets-set qs i q h.1 g)

AllWheels-set :
    (ws : List (List (Queue TimerNode))) (l : ℕ) (w : List (Queue TimerNode))
    → AllWheels ws
    → AllBuckets w
    → AllWheels (set ws l w)
AllWheels-set [] l w h g = tt
AllWheels-set (p ∷ ws) zero w h g = (g, h.1)
AllWheels-set (p ∷ ws) (suc l) w h g = (h.0, AllWheels-set ws l w h.1 g)

pub AllWheels-bucket :
    (w : TimerWheel) (l i : ℕ) → AllWheels w.wheels → SentinelsAtZero (bucket w l i)
AllWheels-bucket w l i h =
    AllBuckets-get_or (get_or w.wheels l []) i (AllWheels-get_or w.wheels l h)

pub AllWheels-set_bucket :
    (w : TimerWheel) (l i : ℕ) (q : Queue TimerNode)
    → AllWheels w.wheels
    → SentinelsAtZero q
    → AllWheels (set_bucket w l i q).wheels
AllWheels-set_bucket w l i q h g =
    AllWheels-set w.wheels l (set (get_or w.wheels l []) i q) h
      (AllBuckets-set (get_or w.wheels l []) i q (AllWheels-get_or w.wheels l h) g)

pub SentinelsAtZero-unlink :
    (a : ℕ) (q : Queue TimerNode) → SentinelsAtZero q → SentinelsAtZero (unlink a q)
unfolding unlink
SentinelsAtZero-unlink a [] h = tt
SentinelsAtZero-unlink a ((b, n) ∷ q) h = elim (Bool-cases (b == a)) [
  | inl g ↦ rw g h.1
  | inr g ↦ rw g (h.0, SentinelsAtZero-unlink a q h.1)
]

pub SentinelsAtZero-push_back :
    (a : ℕ) (pos : Option (ℕ × ℕ)) (gen info nodes : ℕ) (q : Queue TimerNode)
    → SentinelsAtZero q
    → SentinelsAtZero (push_back a (entry pos gen info nodes) q)
SentinelsAtZero-push_back a pos gen info nodes [] h = (λ e. cc, tt)
SentinelsAtZero-push_back a pos gen info nodes ((b, n) ∷ q) h =
    (h.0, SentinelsAtZero-push_back a pos gen info nodes q h.1)

module _ {ℓ} {A : Type ℓ} where
  get_or-set_ne :
      (xs : List A) (i j : ℕ) (v d : A) → i ≢ j → get_or (set xs i v) j d ≡ get_or xs j d
  get_or-set_ne [] i j v d h = refl
  get_or-set_ne (x ∷ xs) zero zero v d h = absurd (h refl)
  get_or-set_ne (x ∷ xs) zero (suc j) v d h = refl
  get_or-set_ne (x ∷ xs) (suc i) zero v d h = refl
  get_or-set_ne (x ∷ xs) (suc i) (suc j) v d h = get_or-set_ne xs i j v d (λ e. h (ap suc e))

  get_or-set : (xs : List A) (i : ℕ) (v d : A) → i < length xs → get_or (set xs i v) i d ≡ v
  get_or-set [] i v d h = absurd (omega arith)
  get_or-set (x ∷ xs) zero v d h = refl
  get_or-set (x ∷ xs) (suc i) v d h = get_or-set xs i v d (omega arith)

pub IsShaped-set_bucket :
    (w : TimerWheel) (l i : ℕ) (q : Queue TimerNode) → IsShaped w → IsShaped (set_bucket w l i q)
IsShaped-set_bucket w l i q h = (
  length-set w.wheels l _ ∙ h.0,
  λ level b. elim (ℕ_discrete l level) [
    | yes e ↦ rw (← e) (
        ap length
          (get_or-set w.wheels l (set (get_or w.wheels l []) i q) [] (omega (arith, h.0, e, b)))
        ∙ length-set (get_or w.wheels l []) i q
        ∙ h.1 l (omega (arith, e, b)))
    | no n ↦
        ap length (get_or-set_ne w.wheels l level (set (get_or w.wheels l []) i q) [] n)
        ∙ h.1 level b
  ],
)
