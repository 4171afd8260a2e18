-- ===== src/Tests/Cache.antt =====
-- Tests of src/sync/base_cache.rs.
use moka.Base.{
  ◌++◌, ◌==◌, Bool, ◌⊎◌, ℕ, ◌≡◌, refl, ◌↔◌, ◌&&◌, List, [], ◌∷◌, true, false, none, some, ltb, leb,
  if◌then◌else◌, arith, ℕ_discrete,
}
use mathlib.Core.Option
use moka.EntryInfo.{EntryInfo, expiration_state, unpack}
use moka.Concurrent.{Shared, ValueEntry, default_deq_nodes, update}
use moka.Queue.{Queue, contains}
use moka.Queue.Laws.{Distinct}
use moka.Sketch.{default}
use moka.TimerWheel
use moka.Cache.{State, Config, tiny_lfu, new_counters, info_of}
use moka.Cache.Expiry.{is_expired_entry_ao, is_expired_entry_ao_iff, IsStale}
use moka.Cache.Admission.{admit, admitted, rejected, new_candidate}
use moka.Cache.Admission.First.{AllClean, keys_of, Enough, AllNeeded, admit_first}
use moka.Cache.Admission.Sums.{total_weight, total_freq}
use moka.Cache.Handle.{apply_writes}
use moka.Cache.{cht_remove_if_and_retire, get}
use moka.Cache.Map.{cht_remove_if_and_retire_lem, IsKept, IsRemoved}
use moka.Cache.Links.{handle_remove-handle_admit, admit_then_remove, kept}
use moka.Cache.Retired.{apply_writes_retired, to_write_ops, Message, SamePolicies}

-- A clean entry of key `k` that was last touched at 5,000 ns.
abbrev info : ℕ → EntryInfo ℕ
info k = record {
  key_hash = record { key = k; hash = k };
  is_admitted = false;
  is_retired = false;
  entry_gen = 1;
  policy_gen = 1;
  expiration_state = 0xffff_ffff_ffff_f000;
  last_accessed = 5_000;
  last_modified = 5_000;
  policy_weight = 3;
}

abbrev retired_info : EntryInfo ℕ
retired_info = record (info 9) { is_retired = true }

-- Address `i` holds the info of key `i`, and address 9 a retired entry.
abbrev objects : Shared ℕ
objects = record { infos = update info 9 retired_info; deq_nodes = λ n. default_deq_nodes }

abbrev value : ℕ → ValueEntry ℕ
value i = record { value = 100; info = i; nodes = i }

abbrev probation : Queue ℕ
probation = (20, 1) ∷ (21, 9) ∷ (22, 2) ∷ []

abbrev entries : List (ℕ × ValueEntry ℕ)
entries = (1, value 1) ∷ (2, value 2) ∷ (4, value 4) ∷ []

-- A bounded cache with a time to live, so that the write-order deque is in use.
abbrev config : Config
config = record {
  max_capacity = some 10;
  eviction_policy = tiny_lfu;
  time_to_live = some 1_000_000;
  time_to_idle = some 1_000;
  valid_after = none;
  has_notifier = true;
  has_invalidator = false;
}

abbrev state : State ℕ ℕ
state = record {
  cache = entries;
  shared = objects;
  deques = record { window = []; probation = probation; protected = []; write_order = [] };
  timer_wheel = TimerWheel.new 0;
  sketch = default;
  counters = new_counters 2 6;
  more_entries_to_evict = false;
  notified = [];
  next_addr = 30;
}

probation-Distinct : Distinct probation
unfolding contains
probation-Distinct = (refl, (refl, (refl, tt)))

abbrev nodes : Queue ℕ
nodes = (20, 1) ∷ (22, 2) ∷ []

nodes-Distinct : Distinct nodes
unfolding contains
nodes-Distinct = (refl, (refl, tt))

nodes-AllClean : AllClean ℕ_discrete entries objects nodes
unfolding get ℕ_discrete
nodes-AllClean = (refl, refl, (value 1, refl), (refl, refl, (value 2, refl), tt))

admit_first_example :
    let candidate = new_candidate 5 1 in
    (taken rest : Queue ℕ) × (nodes ≡ taken ++ rest)
    × ((rest ≡ []) ⊎ Enough ℕ_discrete entries objects default candidate taken)
    × AllNeeded ℕ_discrete entries objects default candidate [] taken
    × (admit ℕ_discrete entries objects default candidate nodes
        ≡ some (
          nodes,
          if leb 5 (total_weight ℕ_discrete entries objects default (keys_of objects taken))
                && ltb (total_freq ℕ_discrete entries objects default (keys_of objects taken)) 1
              then admitted (keys_of objects taken)
              else rejected,
        ))
admit_first_example =
    admit_first ℕ_discrete entries objects default (new_candidate 5 1) nodes nodes-Distinct
      nodes-AllClean

state_weight : (new_counters 2 6).weighted_size ≡ 6
unfolding new_counters
state_weight = refl

no_expiration : (expiration_state (info_of state (value 4))).0 ≡ none
unfolding expiration_state unpack
no_expiration = refl

fresh_ao : contains 30 probation ≡ false
unfolding contains
fresh_ao = refl

fresh_wo : contains {T = ℕ} 31 [] ≡ false
unfolding contains
fresh_wo = refl

handle_remove-handle_admit_example :
    Option.map kept (admit_then_remove config state (value 4)) ≡ some (kept state)
handle_remove-handle_admit_example =
    handle_remove-handle_admit config state (value 4) refl no_expiration (refl, refl, refl)
      (fresh_ao, fresh_wo) (omega (arith, state_weight))

abbrev messages : List (Message ℕ ℕ)
messages =
    (record { key = 9; hash = 9 }, value 9, 2, 0, 3)
    ∷ (record { key = 9; hash = 9 }, value 9, 3, 3, 4)
    ∷ []

apply_writes_retired_example :
    (s' : State ℕ ℕ) × (apply_writes ℕ_discrete config state (to_write_ops messages) ≡ some s')
    × SamePolicies state s'
apply_writes_retired_example =
    apply_writes_retired ℕ_discrete config messages state (refl, (refl, tt))

is_expired_entry_ao_iff_example :
    (is_expired_entry_ao (some 1_000) (some 4_000) (info 1) 6_000 ≡ true)
    ↔ IsStale (some 1_000) (some 4_000) 5_000 6_000
is_expired_entry_ao_iff_example =
    is_expired_entry_ao_iff (info 1) 6_000 (some 1_000) (some 4_000) 5_000 refl (omega arith)
      (omega arith)

abbrev is_hundred : ValueEntry ℕ → Bool
is_hundred e = e.value == 100

cht_remove_if_and_retire_lem_example :
    let (s', result) = cht_remove_if_and_retire ℕ_discrete state 2 is_hundred in
    (((result ≡ none) × IsKept ℕ_discrete state 2 is_hundred s')
      ⊎ ((e : ValueEntry ℕ) × (result ≡ some e) × IsRemoved ℕ_discrete state 2 is_hundred s' e))
    × (get ℕ_discrete 4 s'.cache ≡ get ℕ_discrete 4 entries)
cht_remove_if_and_retire_lem_example =
    cht_remove_if_and_retire_lem ℕ_discrete state 2 4 is_hundred (ground arith)
