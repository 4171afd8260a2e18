-- ===== src/TimerWheel.antt =====
-- src/common/timer_wheel.rs: the hierarchical timer wheel. A bucket is a deque (Queue) of timer
-- nodes; `none` as the outcome of an operation is a fault: an `unreachable!`, a failed `unwrap`, or
-- a pointer to no node of the wheel.
pub mod Buckets
pub mod Advance
pub mod Iter
pub mod Links
pub mod Pointers
pub mod Steps
use moka.Base.{
  ℕ, zero, suc, ◌+◌, ◌-◌, ◌/◌, ◌^◌, ◌≤◌, min, List, [], ◌∷◌, ◌++◌, Bool, true, false, not, ◌&&◌,
  Option, none, some, bit_and, ltb, leb, ◌==◌, if◌then◌else◌, length, get_or, set, replicate,
}
use moka.Base.Word.{u64_max}
use moka.Time
use moka.Time.{Instant}
use moka.EntryInfo.{EntryInfo, expiration_state}
use moka.Concurrent.{Shared, set_timer_node}
use moka.Queue.{Queue, find, unlink, push_back, move_front_to_back, peek_back}

abbrev pub bucket_counts : ℕ → ℕ
bucket_counts zero = 64
bucket_counts (suc zero) = 64
bucket_counts (suc (suc zero)) = 32
bucket_counts (suc (suc (suc zero))) = 4
bucket_counts (suc (suc (suc (suc _)))) = 1

-- The number of wheels, `BUCKET_COUNTS.len()`.
abbrev pub wheel_count : ℕ
wheel_count = 5

abbrev pub overflow_queue_index : ℕ
overflow_queue_index = 4

abbrev pub num_levels : ℕ
num_levels = 3

-- `aligned_duration` of one second, minute, hour and day, and four of the last, twice.
abbrev pub spans : ℕ → ℕ
spans zero = 2 ^ 30
spans (suc zero) = 2 ^ 36
spans (suc (suc zero)) = 2 ^ 42
spans (suc (suc (suc zero))) = 2 ^ 47
spans (suc (suc (suc (suc _)))) = 2 ^ 49

-- The trailing zeros of the spans.
abbrev pub shift : ℕ → ℕ
shift zero = 30
shift (suc zero) = 36
shift (suc (suc zero)) = 42
shift (suc (suc (suc zero))) = 47
shift (suc (suc (suc (suc _)))) = 49

-- The fields of an entry: position, expiry generation, and the addresses of its `EntryInfo` and its
-- `DeqNodes`.
pub data TimerNode : Type 0 where
  sentinel : TimerNode
  entry : Option (ℕ × ℕ) → ℕ → ℕ → ℕ → TimerNode

abbrev pub is_sentinel : TimerNode → Bool
is_sentinel sentinel = true
is_sentinel (entry pos gen info nodes) = false

abbrev pub expiry_gen : TimerNode → ℕ
expiry_gen sentinel = 0
expiry_gen (entry pos gen info nodes) = gen

pub record TimerWheel : Type 0 where
  pub wheels : List (List (Queue TimerNode))
  pub origin : Instant
  pub current : Instant

unfoldable pub new : Instant → TimerWheel
new now = record { wheels = []; origin = now; current = now }

abbrev pub is_enabled : TimerWheel → Bool
is_enabled w = not (length w.wheels == 0)

-- A wheel of empty buckets, each with its sentinel, at address 0: no pointer to a sentinel is kept.
unfoldable pub new_wheel : ℕ → List (Queue TimerNode)
new_wheel count = replicate count ((0, sentinel) ∷ [])

unfoldable pub enable : TimerWheel → TimerWheel
unfolding new_wheel
enable w = record w {
  wheels = new_wheel 64 ∷ new_wheel 64 ∷ new_wheel 32 ∷ new_wheel 4 ∷ new_wheel 1 ∷ [];
}

abbrev pub bucket : TimerWheel → ℕ → ℕ → Queue TimerNode
bucket w level index = get_or (get_or w.wheels level []) index []

abbrev pub set_bucket : TimerWheel → ℕ → ℕ → Queue TimerNode → TimerWheel
set_bucket w level index q = record w {
  wheels = set w.wheels level (set (get_or w.wheels level []) index q);
}

abbrev pub duration_nanos_since_last_advanced : TimerWheel → Instant → ℕ
duration_nanos_since_last_advanced w time = Time.saturating_duration_since time w.current

-- The duration is a u64 number of nanoseconds already, so the conversion from u128 succeeds.
abbrev pub time_nanos : TimerWheel → Instant → ℕ
time_nanos w time = Time.saturating_duration_since time w.origin

-- The index of a time in the wheel of a level.
unfoldable pub tick_index : ℕ → ℕ → ℕ
tick_index level nanos = bit_and (nanos / 2 ^ shift level) (bucket_counts level - 1)

-- The loop of `bucket_indices`, from `level` on, with the number of rounds left.
unfoldable pub bucket_loop : ℕ → ℕ → ℕ → ℕ → ℕ × ℕ
bucket_loop zero level duration nanos = (overflow_queue_index, 0)
bucket_loop (suc n) level duration nanos =
    let rest = bucket_loop n (level + 1) duration nanos in
    if ltb duration (spans (level + 1)) then (level, tick_index level nanos) else rest

unfoldable pub bucket_indices : TimerWheel → Instant → ℕ × ℕ
bucket_indices w time =
    bucket_loop (num_levels + 1) 0 (duration_nanos_since_last_advanced w time) (time_nanos w time)

-- The element that a pointer to a timer node reads.
unfoldable pub find_in : ℕ → List (Queue TimerNode) → Option TimerNode
find_in a [] = none
find_in a (q ∷ qs) = elim (find a q) [ none ↦ find_in a qs | some n ↦ some n ]

unfoldable pub node_at : ℕ → List (List (Queue TimerNode)) → Option TimerNode
node_at a [] = none
node_at a (wheel ∷ wheels) = elim (find_in a wheel) [ none ↦ node_at a wheels | some n ↦ some n ]

pub data ReschedulingResult : Type 0 where
  rescheduled : ReschedulingResult
  removed : TimerNode → ReschedulingResult

module _ {ℓ} {K : Type ℓ} (sh : Shared K) where
  -- `addr` is the address of the new node.
  unfoldable pub schedule : TimerWheel → ℕ → ℕ → ℕ → ℕ → TimerWheel × Option ℕ
  schedule w addr info nodes gen =
      let (opt_time, current_gen) = expiration_state (sh.infos info) in
      if not (current_gen == gen) then (w, none) else elim opt_time [
        | none ↦ (w, none)
        | some t ↦
            let (level, index) = bucket_indices w t in
            let node = entry (some (level, index)) gen info nodes in
            (set_bucket w level index (push_back addr node (bucket w level index)), some addr)
      ]

  unfoldable pub schedule_existing_node :
      TimerWheel → ℕ → TimerNode → Option (TimerWheel × Shared K × ReschedulingResult)
  schedule_existing_node w addr sentinel = none
  schedule_existing_node w addr (entry pos gen info nodes) =
      elim (expiration_state (sh.infos info)).0 [
        | none ↦ some (w, set_timer_node sh nodes none 0, removed (entry none gen info nodes))
        | some t ↦
            let (level, index) = bucket_indices w t in
            let node = entry (some (level, index)) gen info nodes in
            some (
              set_bucket w level index (push_back addr node (bucket w level index)),
              sh,
              rescheduled,
            )
      ]

-- The wheel and the node after `unlink_timer`, with its result.
unfoldable pub unlink_timer : TimerWheel → ℕ → TimerNode → TimerWheel × TimerNode × Bool
unlink_timer w addr sentinel = (w, sentinel, false)
unlink_timer w addr (entry none gen info nodes) = (w, entry none gen info nodes, true)
unlink_timer w addr (entry (some (level, index)) gen info nodes) =
    (set_bucket w level index (unlink addr (bucket w level index)), entry none gen info nodes, true)

abbrev pub Rescheduled {ℓ} : Type ℓ → Type ℓ
Rescheduled K = Option (TimerWheel × Shared K × Option ReschedulingResult)

-- The end of `reschedule`, after `unlink_timer`.
unfoldable pub relink {ℓ} : {K : Type ℓ} → Shared K → TimerWheel → ℕ → TimerNode → Rescheduled K
relink sh w addr node = elim (schedule_existing_node sh w addr node) [
  | none ↦ none
  | some (w', sh', result) ↦ some (w', sh', some result)
]

unfoldable pub reschedule {ℓ} : {K : Type ℓ} → Shared K → TimerWheel → ℕ → ℕ → Rescheduled K
unfolding relink
reschedule sh w addr expected = elim (node_at addr w.wheels) [
  | none ↦ none
  | some node ↦
      let (w', node', valid) = unlink_timer w addr node in
      if not (expiry_gen node == expected)
      then some (w, sh, none)
      else if valid
      then relink sh w' addr node'
      else some (w', sh, none)
]

unfoldable pub deschedule : TimerWheel → ℕ → ℕ → Option (TimerWheel × Bool)
deschedule w addr expected = elim (node_at addr w.wheels) [
  | none ↦ none
  | some node ↦
      let (w', node', valid) = unlink_timer w addr node in
      if not (expiry_gen node == expected) then some (w, false) else some (w', valid)
]

-- The element with its position unset.
abbrev pub unset_position : TimerNode → TimerNode
unset_position sentinel = sentinel
unset_position (entry pos gen info nodes) = entry none gen info nodes

-- Of a bucket: what is left, and the node, unless the sentinel is in front.
unfoldable pub pop_front_node : Queue TimerNode → Queue TimerNode × Option (ℕ × TimerNode)
pop_front_node [] = ([], none)
pop_front_node ((a, sentinel) ∷ q) = ((a, sentinel) ∷ q, none)
pop_front_node ((a, entry pos gen info nodes) ∷ q) = (q, some (a, entry none gen info nodes))

unfoldable pub pop_timer_node : TimerWheel → ℕ → ℕ → TimerWheel × Option (ℕ × TimerNode)
unfolding pop_front_node
pop_timer_node w level index =
    let (q, popped) = pop_front_node (bucket w level index) in (set_bucket w level index q, popped)

-- The `while` loop of `reset_timer_node_positions` on fuel; an empty deque fails its `unwrap`.
unfoldable pub rotate : ℕ → Queue TimerNode → Option (Queue TimerNode)
rotate zero q = none
rotate (suc fuel) q =
    let rest = rotate fuel (move_front_to_back q) in
    elim (peek_back q) [ none ↦ none | some (a, n) ↦ if is_sentinel n then some q else rest ]

unfoldable pub reset_timer_node_positions : TimerWheel → ℕ → ℕ → Option TimerWheel
reset_timer_node_positions w level index =
    let q = bucket w level index in
    elim (rotate (length q + 1) q) [ none ↦ none | some q' ↦ some (set_bucket w level index q') ]
