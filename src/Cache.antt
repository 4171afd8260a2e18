-- ===== src/Cache.antt =====
-- src/sync/base_cache.rs: the state that `Inner` keeps under its maintenance locks, the map as the
-- policies use it, and the counters. The concurrent hash table (src/cht) is the list of its
-- entries, a key at most once; the keys have a decidable equality. A key lock and the `Ordering`
-- annotations have no counterpart. `none` as the outcome of an operation is a panic, an
-- `unreachable!` or a dangling pointer.
pub mod Expiry
pub mod Timer
pub mod Policy
pub mod Links
pub mod Map
pub mod Invariant
pub mod Linked
pub mod Retired
pub mod Handle
pub mod Admission
pub mod Evict
pub mod WriteOrder
pub mod Maintenance
use mathlib.Core.Logic.{ite}
use moka.Base.{
  ℕ, ◌+◌, ◌-◌, ◌/◌, ◌≤◌, min, max, List, [], ◌∷◌, Bool, true, false, not, ◌&&◌, ◌||◌, Option, none,
  some, ltb, leb, ◌==◌, if◌then◌else◌,
}
use moka.Base.Word.{u32_max, u64_max, saturating_add_u64, saturating_sub}
use moka.Time.{Instant, Duration}
use moka.EntryInfo.{EntryInfo, retire}
use moka.Concurrent.{Shared, ValueEntry, set_info}
use moka.Deques.{Deques}
use moka.TimerWheel.{TimerWheel}
use moka.Sketch
use moka.Sketch.{FrequencySketch}

pub data RemovalCause : Type 0 where
  expired explicit replaced size : RemovalCause

pub data EvictionPolicyConfig : Type 0 where
  tiny_lfu lru : EvictionPolicyConfig

-- The configuration, with `valid_after` as `invalidate_all` last set it.
pub record Config : Type 0 where
  pub max_capacity : Option ℕ
  pub eviction_policy : EvictionPolicyConfig
  pub time_to_live : Option Duration
  pub time_to_idle : Option Duration
  pub valid_after : Option Instant
  pub has_notifier : Bool
  pub has_invalidator : Bool

abbrev pub is_some {ℓ} : {A : Type ℓ} → Option A → Bool
is_some none = false
is_some (some a) = true

abbrev pub is_write_order_queue_enabled : Config → Bool
is_write_order_queue_enabled c = is_some c.time_to_live || c.has_invalidator

abbrev pub has_expiry : Config → Bool
has_expiry c = is_some c.time_to_live || is_some c.time_to_idle

pub record EvictionCounters : Type 0 where
  pub entry_count : ℕ
  pub weighted_size : ℕ
  pub eviction_count : ℕ

unfoldable pub new_counters : ℕ → ℕ → EvictionCounters
new_counters entry_count weighted_size = record {
  entry_count = entry_count;
  weighted_size = weighted_size;
  eviction_count = 0;
}

abbrev pub saturating_add : EvictionCounters → ℕ → ℕ → EvictionCounters
saturating_add c count weight = record c {
  entry_count = c.entry_count + count;
  weighted_size = saturating_add_u64 c.weighted_size weight;
}

-- The code subtracts with `-=`: the entry count is at least `count` (see Cache/Linked).
abbrev pub counters_sub : EvictionCounters → ℕ → ℕ → EvictionCounters
counters_sub c count weight = record c {
  entry_count = c.entry_count - count;
  weighted_size = saturating_sub c.weighted_size weight;
}

abbrev pub incr_eviction_count : EvictionCounters → EvictionCounters
incr_eviction_count c = record c { eviction_count = saturating_add_u64 c.eviction_count 1 }

abbrev pub has_enough_capacity : Config → ℕ → EvictionCounters → Bool
has_enough_capacity c weight counters = elim c.max_capacity [
  | none ↦ true
  | some limit ↦ leb (counters.weighted_size + weight) limit
]

abbrev pub weights_to_evict : Config → EvictionCounters → ℕ
weights_to_evict c counters = elim c.max_capacity [
  | none ↦ 0
  | some limit ↦ saturating_sub counters.weighted_size limit
]

-- `sketch_capacity` of src/common.rs.
abbrev pub sketch_capacity : ℕ → ℕ
sketch_capacity max_capacity = max (if leb max_capacity u32_max then max_capacity else u32_max) 128

unfoldable pub should_enable_frequency_sketch : Config → Bool → EvictionCounters → Bool
should_enable_frequency_sketch c enabled counters = elim c.max_capacity [
  | none ↦ false
  | some limit ↦
      if limit == 0
      then false
      else if enabled
      then false
      else leb (limit / 2) counters.weighted_size
]

pub record State (K V : Type 0) : Type 0 where
  pub cache : List (K × ValueEntry V)
  pub shared : Shared K
  pub deques : Deques
  pub timer_wheel : TimerWheel
  pub sketch : FrequencySketch
  pub counters : EvictionCounters
  pub more_entries_to_evict : Bool
  pub notified : List (K × V × RemovalCause)
  -- The allocator: addresses from here on are free.
  pub next_addr : ℕ

module _ {K V : Type 0} where
  -- The info of an entry.
  abbrev pub info_of : State K V → ValueEntry V → EntryInfo K
  info_of s e = s.shared.infos e.info

  abbrev pub put_info : State K V → ℕ → EntryInfo K → State K V
  put_info s i e = record s { shared = set_info s.shared i e }

  module _ (dec : Discrete K) where
    -- `cache.get`.
    unfoldable pub get : K → List (K × ValueEntry V) → Option (ValueEntry V)
    get k [] = none
    get k ((j, e) ∷ m) = ite (dec j k) (some e) (get k m)

    unfoldable pub erase : K → List (K × ValueEntry V) → List (K × ValueEntry V)
    erase k [] = []
    erase k ((j, e) ∷ m) = let rest = erase k m in ite (dec j k) rest ((j, e) ∷ rest)

    -- `cht_remove_if_and_retire`: the entry that was removed and retired, if the condition held.
    unfoldable pub cht_remove_if_and_retire :
        State K V → K → (ValueEntry V → Bool) → State K V × Option (ValueEntry V)
    cht_remove_if_and_retire s k condition = elim (get k s.cache) [
      | none ↦ (s, none)
      | some e ↦
          if condition e
          then (
            record s {
              cache = erase k s.cache;
              shared = set_info s.shared e.info (retire (s.shared.infos e.info));
            },
            some e,
          )
          else (s, none)
    ]

  -- The notification that the listener gets, if there is one, and the count.
  unfoldable pub record_eviction : Config → State K V → K → ValueEntry V → RemovalCause → State K V
  record_eviction c s k e cause = record s {
    notified = if c.has_notifier then (k, e.value, cause) ∷ s.notified else s.notified;
    counters = incr_eviction_count s.counters;
  }
