-- ===== src/Cache/Invariant/Steps.antt =====
-- src/sync/base_cache.rs: the invariant over the steps of a maintenance run.
use moka.Base.{
  ℕ, ◌≡◌, refl, ap, ◌∙◌, inl, inr, List, [], ◌∷◌, Bool, ◌||◌, Option, none, some, ltb, Bool-cases,
}
use moka.Time.{Instant}
use moka.EntryInfo.{is_dirty}
use moka.Concurrent.{ValueEntry}
use moka.Cache.{
  State, Config, expired, info_of, is_some, has_expiry, weights_to_evict, record_eviction,
  cht_remove_if_and_retire,
}
use moka.Cache.Map.{taken_out, remove_cases}
use moka.Cache.Expiry.{is_expired_by_per_entry_ttl}
use moka.Cache.Policy.{handle_remove_without_timer_wheel}
use moka.Cache.Maintenance.{
  MaintenanceStep, process_reads, process_writes, expire_timer, sweep_deques, evict_for_size,
  evict_expired_entry, sweep, evict_overweight, run_step, run_steps,
}
use moka.Cache.Invariant.{IsConsistent, Keeps, get-IsPaired}
use moka.Cache.Invariant.Removal.{handle_remove_without_timer_wheel-Removes}
use moka.Cache.Invariant.Victims.{evicted-IsConsistent}
use moka.Cache.Invariant.Moves.{AllReadable, apply_reads-IsConsistent}
use moka.Cache.Invariant.Handle.{AllWritable, apply_writes-IsConsistent}
use moka.Cache.Invariant.EvictLoop.{evict_lru_entries-IsConsistent}
use moka.Cache.Invariant.Sweep.{evict_expired_entries_using_deqs-IsConsistent}

module _ {K V : Type 0} where
  -- The entries of the messages are paired with their queue nodes.
  abbrev pub IsSteppable : MaintenanceStep K V → Type 0
  IsSteppable (process_reads ops) = AllReadable ops
  IsSteppable (process_writes ops) = AllWritable ops
  IsSteppable (expire_timer i now) = Unit {0}
  IsSteppable (sweep_deques batch_size now) = Unit {0}
  IsSteppable (evict_for_size batch_size) = Unit {0}

  abbrev pub AllSteppable : List (MaintenanceStep K V) → Type 0
  AllSteppable [] = Unit {0}
  AllSteppable (step ∷ steps) = IsSteppable step × AllSteppable steps

module _ {K V : Type 0} (dec : Discrete K) (c : Config) where
  abbrev timer_after : K → State K V × Option (ValueEntry V) → Option (State K V)
  timer_after key (s, none) = some s
  timer_after key (s, some e) =
      handle_remove_without_timer_wheel (record_eviction c s key e expired) e none

module _ {K V : Type 0} {P : K → ValueEntry V → Type 0} (dec : Discrete K) (c : Config) where
  expire_clean :
      (s : State K V) (key : K) (condition : ValueEntry V → Bool)
      → IsConsistent P s
      → Keeps P (timer_after dec c key (cht_remove_if_and_retire dec s key condition))
  expire_clean s key condition h = elim (remove_cases dec s key condition) [
    | inl k ↦ (s, ap (timer_after dec c key) k, h)
    | inr (e, g, k) ↦
        let s1 = record_eviction c (taken_out dec s key e) key e expired in
        let (s2, k2, h2, d) =
          handle_remove_without_timer_wheel-Removes s1 e
            (evicted-IsConsistent dec c s key e expired h) (get-IsPaired dec s key e h g) none in
        (s2, ap (timer_after dec c key) k ∙ k2, h2)
  ]

  evict_expired_entry-Keeps :
      (s : State K V) (i : ℕ) (now : Instant)
      → IsConsistent P s
      → Keeps P (evict_expired_entry dec c s i now)
  unfolding evict_expired_entry
  evict_expired_entry-Keeps s i now h = elim (Bool-cases (is_dirty (s.shared.infos i))) [
    | inl b ↦ (s, rw b refl, h)
    | inr b ↦
        let (s1, k, h1) =
          expire_clean s (s.shared.infos i).key_hash.key
            (λ v. is_expired_by_per_entry_ttl (info_of s v) now) h in
        (s1, rw b k, h1)
  ]

  sweep-Keeps :
      (s : State K V) (batch_size : ℕ) (now : Instant)
      → IsConsistent P s
      → Keeps P (sweep dec c s batch_size now)
  unfolding sweep
  sweep-Keeps s batch_size now h = elim (Bool-cases (has_expiry c || is_some c.valid_after)) [
    | inl b ↦ rw b (evict_expired_entries_using_deqs-IsConsistent dec c s batch_size now h)
    | inr b ↦ rw b (s, refl, h)
  ]

  evict_overweight-Keeps :
      (s : State K V) (batch_size : ℕ)
      → IsConsistent P s
      → Keeps P (evict_overweight dec c s batch_size)
  unfolding evict_overweight
  evict_overweight-Keeps s batch_size h =
      elim (Bool-cases (ltb 0 (weights_to_evict c s.counters))) [
        | inl b ↦
            let (s1, k, h1) =
              evict_lru_entries-IsConsistent dec c s batch_size (weights_to_evict c s.counters) h in
            (s1, rw b k, h1)
        | inr b ↦ (s, rw b refl, h)
      ]

  pub run_step-Keeps :
      (s : State K V) (step : MaintenanceStep K V)
      → IsConsistent P s
      → IsSteppable step
      → Keeps P (run_step dec c s step)
  unfolding run_step
  run_step-Keeps s (process_reads ops) h p = apply_reads-IsConsistent s ops h p
  run_step-Keeps s (process_writes ops) h p = apply_writes-IsConsistent dec c s ops h p
  run_step-Keeps s (expire_timer i now) h p = evict_expired_entry-Keeps s i now h
  run_step-Keeps s (sweep_deques batch_size now) h p = sweep-Keeps s batch_size now h
  run_step-Keeps s (evict_for_size batch_size) h p = evict_overweight-Keeps s batch_size h

  -- From a consistent state any sequence of maintenance steps succeeds and ends in a consistent
  -- state: batches of reads and of writes whose entries are paired with their queue nodes,
  -- expired timers, sweeps over the deques and evictions for size, in whatever order. No step
  -- follows a dangling pointer; the nodes of the deques stay those of the admitted entries, each
  -- pointed to by its own entry only, the entry count stays their number, and the timers stay
  -- nodes of the wheel.
  pub run_steps-IsConsistent :
      (s : State K V) (steps : List (MaintenanceStep K V))
      → IsConsistent P s
      → AllSteppable steps
      → (s' : State K V) × (run_steps dec c s steps ≡ some s') × IsConsistent P s'
  unfolding run_steps
  run_steps-IsConsistent s [] h p = (s, refl, h)
  run_steps-IsConsistent s (step ∷ steps) h p =
      let (s1, k1, h1) = run_step-Keeps s step h p.0 in
      let (s2, k2, h2) = run_steps-IsConsistent s1 steps h1 p.1 in (s2, rw k1 k2, h2)
