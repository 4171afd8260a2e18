-- ===== src/Tests/Maintenance.antt =====
-- Tests of the maintenance of src/sync/base_cache.rs, from a state with three entries that the
-- policies do not know yet.
use moka.Base.{ℕ, ◌≡◌, refl, inl, List, [], ◌∷◌, true, false, none, some, arith, ℕ_discrete}
use moka.EntryInfo.{EntryInfo}
use moka.Concurrent.{ValueEntry, default_deq_nodes, ReadOp, WriteOp, hit, miss, upsert, remove}
use moka.Queue.{find}
use moka.Sketch.{default}
use moka.TimerWheel
use moka.TimerWheel.{node_at}
use moka.Cache.{State, Config, tiny_lfu, new_counters}
use moka.Cache.Linked.{IsLinked, IsCounted}
use moka.Cache.Linked.Timed.{IsTimed}
use moka.Cache.Invariant.{IsConsistent}
use moka.Cache.Maintenance.{
  MaintenanceStep, process_reads, process_writes, expire_timer, sweep_deques, evict_for_size,
  run_steps,
}
use moka.Cache.Invariant.Steps.{run_steps-IsConsistent}

-- An entry of key `k` that was written at 5,000 ns and expires on its own at 8,192 ns.
abbrev written : ℕ → EntryInfo ℕ
written k = record {
  key_hash = record { key = k; hash = k };
  is_admitted = false;
  is_retired = false;
  entry_gen = 1;
  policy_gen = 0;
  expiration_state = 0x2001;
  last_accessed = 5_000;
  last_modified = 5_000;
  policy_weight = 3;
}

abbrev pub value : ℕ → ValueEntry ℕ
value i = record { value = 100; info = i; nodes = i }

abbrev pub IsHundred : ℕ → ValueEntry ℕ → Type 0
IsHundred k e = e.value ≡ 100

abbrev pub config : Config
config = record {
  max_capacity = some 7;
  eviction_policy = tiny_lfu;
  time_to_live = some 1_000_000;
  time_to_idle = some 1_000;
  valid_after = none;
  has_notifier = true;
  has_invalidator = false;
}

abbrev pub start : State ℕ ℕ
start = record {
  cache = (1, value 1) ∷ (2, value 2) ∷ (4, value 4) ∷ [];
  shared = record { infos = written; deq_nodes = λ n. default_deq_nodes };
  deques = record { window = []; probation = []; protected = []; write_order = [] };
  timer_wheel = TimerWheel.new 0;
  sketch = default;
  counters = new_counters 0 0;
  more_entries_to_evict = false;
  notified = [];
  next_addr = 1;
}

start-IsLinked : IsLinked start
unfolding find
start-IsLinked = record {
  ao_distinct = tt;
  wo_distinct = tt;
  ao_owner = λ a i h. cc;
  ao_valid = λ i a r h. cc;
  wo_owner = λ a i h. cc;
  wo_valid = λ i a h. cc;
  admitted_linked = λ i h. cc;
  unadmitted_free = λ i h. (refl, refl);
  ao_fresh = λ a h. refl;
  wo_fresh = λ a h. refl;
  window_empty = refl;
  protected_empty = refl;
}

start-IsTimed : IsTimed start
unfolding TimerWheel.new node_at
start-IsTimed = record {
  sound = inl refl;
  timer_valid = λ i a h. cc;
  timer_unique = λ i j a h g. cc;
  timer_fresh = λ a h. refl;
  addr_pos = omega arith;
}

start-IsCounted : IsCounted start
unfolding new_counters
start-IsCounted = refl

pub start-IsConsistent : IsConsistent IsHundred start
start-IsConsistent = record {
  links = start-IsLinked;
  timers = start-IsTimed;
  count = start-IsCounted;
  paired = (refl, refl, (refl, refl, (refl, refl, tt)));
}

abbrev writes : List (WriteOp ℕ ℕ)
writes =
    upsert (record { key = 1; hash = 1 }) (value 1) 1 0 3
    ∷ upsert (record { key = 2; hash = 2 }) (value 2) 1 0 3
    ∷ upsert (record { key = 4; hash = 4 }) (value 4) 1 0 3
    ∷ remove 2 (value 2) 2
    ∷ []

abbrev reads : List (ReadOp ℕ)
reads = hit (value 1) true ∷ miss 9 ∷ []

abbrev steps : List (MaintenanceStep ℕ ℕ)
steps =
    process_writes writes
    ∷ process_reads reads
    ∷ expire_timer 1 9_000
    ∷ sweep_deques 10 7_000
    ∷ evict_for_size 10
    ∷ []

run_steps-IsConsistent_example :
    (s' : State ℕ ℕ) × (run_steps ℕ_discrete config start steps ≡ some s')
    × IsConsistent IsHundred s'
run_steps-IsConsistent_example =
    run_steps-IsConsistent ℕ_discrete config start steps start-IsConsistent
      ((refl, (refl, (refl, (refl, tt)))), ((refl, (tt, tt)), (tt, (tt, (tt, tt)))))
