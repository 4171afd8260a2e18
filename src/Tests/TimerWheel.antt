-- ===== src/Tests/TimerWheel.antt =====
-- Tests of src/common/timer_wheel.rs.
use moka.Base.{ℕ, ◌+◌, ◌≤◌, ◌<◌, ◌≡◌, refl, ◌⊎◌, [], ◌∷◌, none, some, true, false, bit_and, arith}
use moka.EntryInfo.{EntryInfo, expiration_state, unpack}
use moka.Concurrent.{Shared, default_deq_nodes}
use moka.Queue.{find}
use moka.TimerWheel
use moka.TimerWheel.{
  TimerWheel, TimerNode, entry, sentinel, enable, new_wheel, bucket_indices, bucket_counts,
  wheel_count, spans, duration_nanos_since_last_advanced, schedule, deschedule, node_at, find_in,
  rotate, tick_index,
}
use moka.TimerWheel.Buckets.{bucket_indices_bounds, bucket_indices_span}
use moka.TimerWheel.Iter.{TimerEventsIter, enter_level, previous_ticks}
use moka.TimerWheel.Advance.{rotate_lem, enter_level_visits}
use moka.TimerWheel.Links.{deschedule-schedule, enable-IsShaped, IsShaped}

-- A wheel made and enabled one second after the clock's start.
abbrev one_second : ℕ
one_second = 1_000_000_000

abbrev wheel : TimerWheel
wheel = enable (TimerWheel.new one_second)

-- An entry that expires about 100 seconds after the clock's start, at expiry generation 3.
abbrev expiring : EntryInfo ℕ
expiring = record {
  key_hash = record { key = 42; hash = 0xdeadbeef };
  is_admitted = false;
  is_retired = false;
  entry_gen = 1;
  policy_gen = 0;
  expiration_state = 0x17_4876_e003;
  last_accessed = 0;
  last_modified = 0;
  policy_weight = 1;
}

abbrev objects : Shared ℕ
objects = record { infos = λ i. expiring; deq_nodes = λ n. default_deq_nodes }

expiring_state : expiration_state (objects.infos 1) ≡ (some 0x17_4876_e000, 3)
unfolding expiration_state unpack
expiring_state = refl

wheel_fresh : node_at 7 wheel.wheels ≡ none
unfolding enable new_wheel node_at find_in find TimerWheel.new
wheel_fresh = refl

bucket_of_example : bucket_indices wheel 0x17_4876_e000 ≡ (1, 1)
unfolding bucket_indices TimerWheel.bucket_loop tick_index enable TimerWheel.new
bucket_of_example = refl

bucket_indices_bounds_example :
    ((bucket_indices wheel 0x17_4876_e000).0 < wheel_count)
    × ((bucket_indices wheel 0x17_4876_e000).1
        < bucket_counts (bucket_indices wheel 0x17_4876_e000).0)
bucket_indices_bounds_example = bucket_indices_bounds wheel 0x17_4876_e000

bucket_indices_span_example :
    let level = (bucket_indices wheel 0x17_4876_e000).0 in
    let delay = duration_nanos_since_last_advanced wheel 0x17_4876_e000 in
    ((level ≡ 0) ⊎ (spans level ≤ delay)) × ((level ≡ 4) ⊎ (delay < spans (level + 1)))
bucket_indices_span_example = bucket_indices_span wheel 0x17_4876_e000

enable-IsShaped_example : IsShaped wheel
enable-IsShaped_example = enable-IsShaped (TimerWheel.new one_second)

deschedule-schedule_example :
    let (w', node) = schedule objects wheel 7 1 2 3 in
    (node ≡ some 7)
    × (node_at 7 w'.wheels
        ≡ some (
            entry
              (some
                ((bucket_indices wheel 0x17_4876_e000).0, (bucket_indices wheel 0x17_4876_e000).1))
              3
              1
              2))
    × (deschedule w' 7 3 ≡ some (wheel, true))
deschedule-schedule_example =
    deschedule-schedule objects wheel 7 1 2 3 0x17_4876_e000
      (enable-IsShaped (TimerWheel.new one_second)) wheel_fresh expiring_state

abbrev timer : TimerNode
timer = entry (some (1, 1)) 3 1 2

rotate_lem_example :
    rotate 4 ((5, timer) ∷ (0, sentinel) ∷ (6, timer) ∷ [])
    ≡ some ((6, timer) ∷ (5, timer) ∷ (0, sentinel) ∷ [])
rotate_lem_example =
    rotate_lem ((5, timer) ∷ []) ((6, timer) ∷ []) 0 4 (refl, tt) (refl, tt) (omega arith)

-- Three ticks of the lowest wheel later.
abbrev iterator : TimerEventsIter ℕ
iterator = record {
  timer_wheel = TimerWheel.new one_second;
  shared = objects;
  previous_time = one_second;
  current_time = 4_221_225_472;
  is_done = false;
  level = 0;
  index = 0;
  end_index = 0;
  index_mask = 0;
  is_new_level = true;
  is_new_index = true;
}

previous_ticks_zero : previous_ticks iterator ≡ 0
unfolding TimerWheel.new
previous_ticks_zero = refl

origin_of_iterator : iterator.timer_wheel.origin ≡ one_second
unfolding TimerWheel.new
origin_of_iterator = refl

enter_level_visits_example :
    (k : ℕ) × ((enter_level iterator).index + k < (enter_level iterator).end_index)
    × (bit_and ((enter_level iterator).index + k) (enter_level iterator).index_mask
        ≡ tick_index 0 2_000_000_000)
enter_level_visits_example =
    enter_level_visits iterator 2_000_000_000 (omega (arith, origin_of_iterator))
      (omega (arith, origin_of_iterator)) (omega (arith, origin_of_iterator))
