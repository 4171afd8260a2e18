-- ===== src/Cache/Admission.antt =====
-- src/sync/base_cache.rs: `admit`, the TinyLFU admission, over the probation deque. Its loop runs on
-- fuel, `admit_fuel` of the deque, which Cache/Admission/Loop shows to be enough.
pub mod Sums
pub mod Loop
pub mod First
use moka.Base.{
  ℕ, zero, suc, ◌+◌, ◌*◌, List, [], ◌∷◌, ◌++◌, Bool, true, false, not, ◌&&◌, ◌||◌, Option, none,
  some, ltb, leb, if◌then◌else◌, length,
}
use moka.Time.{Instant}
use moka.EntryInfo.{KeyHash, is_dirty, is_alive, last_accessed}
use moka.Concurrent.{Shared, ValueEntry}
use moka.Queue.{Queue, find, next_node, peek_front_ptr, move_to_back}
use moka.Sketch.{FrequencySketch, frequency}
use moka.Cache.{get}

pub record EntrySizeAndFrequency : Type 0 where
  pub policy_weight : ℕ
  pub freq : ℕ

-- `EntrySizeAndFrequency::default` and `EntrySizeAndFrequency::new`.
abbrev pub no_victims : EntrySizeAndFrequency
no_victims = record { policy_weight = 0; freq = 0 }

abbrev pub new_candidate : ℕ → ℕ → EntrySizeAndFrequency
new_candidate policy_weight freq = record { policy_weight = policy_weight; freq = freq }

-- `add_policy_weight` and `add_frequency`; Cache/Admission/Loop bounds both sums.
abbrev pub add_victim : EntrySizeAndFrequency → ℕ → ℕ → EntrySizeAndFrequency
add_victim v weight freq = record { policy_weight = v.policy_weight + weight; freq = v.freq + freq }

abbrev pub Victims : Type 0 → Type 0
Victims K = List (KeyHash K × Option Instant)

pub data AdmissionResult (K : Type 0) : Type 0 where
  admitted : Victims K → AdmissionResult K
  rejected : AdmissionResult K

abbrev pub max_consecutive_retries : ℕ
max_consecutive_retries = 5

-- The condition of the loop.
abbrev pub wants_victims : EntrySizeAndFrequency → EntrySizeAndFrequency → ℕ → Bool
wants_victims candidate victims retries =
    ltb victims.policy_weight candidate.policy_weight
    && leb victims.freq candidate.freq
    && leb retries max_consecutive_retries

-- The test after the loop.
abbrev pub admits : EntrySizeAndFrequency → EntrySizeAndFrequency → Bool
admits candidate v = leb candidate.policy_weight v.policy_weight && ltb v.freq candidate.freq

abbrev pub admit_fuel : ℕ → ℕ
admit_fuel nodes = 7 * nodes + 7

module _ {K V : Type 0} (dec : Discrete K) (m : List (K × ValueEntry V)) (sh : Shared K) where
  -- The node is skipped for its info, or for its key, which the map does not have; else its weight.
  unfoldable pub victim_weight : ℕ → Option ℕ
  victim_weight i =
      if is_dirty (sh.infos i) || not (is_alive (sh.infos i))
      then none
      else elim (get dec (sh.infos i).key_hash.key m) [
        | none ↦ none
        | some e ↦ some (sh.infos e.info).policy_weight
      ]

module _ {K V : Type 0} (dec : Discrete K) (m : List (K × ValueEntry V)) (sh : Shared K)
    (skt : FrequencySketch) (candidate : EntrySizeAndFrequency) where
  -- The loop, with the fuel, the deque, `next_victim`, `victims`, `victim_keys` and `retries`. A
  -- pointer to no node of the deque is `none`.
  unfoldable pub admit_loop :
      ℕ
      → Queue ℕ
      → Option ℕ
      → EntrySizeAndFrequency
      → Victims K
      → ℕ
      → Option (Queue ℕ × EntrySizeAndFrequency × Victims K)
  admit_loop zero q next_victim v keys retries = none
  admit_loop (suc fuel) q none v keys retries = some (q, v, keys)
  admit_loop (suc fuel) q (some a) v keys retries = elim (wants_victims candidate v retries) [
    | false ↦ some (q, v, keys)
    | true ↦ elim (find a q) [
      | none ↦ none
      | some i ↦ elim (victim_weight dec m sh i) [
        | none ↦ admit_loop fuel (move_to_back a q) (next_node a q) v keys (suc retries)
        | some weight ↦
            admit_loop fuel q (next_node a q)
              (add_victim v weight (frequency skt (sh.infos i).key_hash.hash))
              (keys ++ ((sh.infos i).key_hash, last_accessed (sh.infos i)) ∷ []) 0
      ]
    ]
  ]

  unfoldable pub admit : Queue ℕ → Option (Queue ℕ × AdmissionResult K)
  unfolding admit_loop
  admit q = elim (admit_loop (admit_fuel (length q)) q (peek_front_ptr q) no_victims [] 0) [
    | none ↦ none
    | some (q', v, keys) ↦ some (q', if admits candidate v then admitted keys else rejected)
  ]
