-- ===== src/Cache/Maintenance.antt =====
-- src/sync/base_cache.rs: the steps of which a turn of the loop of `do_run_pending_tasks` is made,
-- but for the walk of the timer wheel, whose expired timers are steps of their own, and the
-- invalidation predicates.
use moka.Base.{ℕ, List, [], ◌∷◌, ◌||◌, Option, none, some, ◌>>=◌, ltb, if◌then◌else◌}
use moka.Time.{Instant}
use moka.EntryInfo.{is_dirty}
use moka.Concurrent.{ReadOp, WriteOp}
use moka.Cache.{
  State, Config, expired, info_of, is_some, has_expiry, weights_to_evict, cht_remove_if_and_retire,
  record_eviction,
}
use moka.Cache.Expiry.{is_expired_by_per_entry_ttl}
use moka.Cache.Policy.{apply_reads, handle_remove_without_timer_wheel}
use moka.Cache.Handle.{apply_writes}
use moka.Cache.Evict.{evict_lru_entries}
use moka.Cache.WriteOrder.{evict_expired_entries_using_deqs}

-- What a turn can do: messages of the channels, an expired timer of the entry with an info, the
-- sweep over the deques, and the eviction for size.
pub data MaintenanceStep (K V : Type 0) : Type 0 where
  process_reads : List (ReadOp V) → MaintenanceStep K V
  process_writes : List (WriteOp K V) → MaintenanceStep K V
  expire_timer : ℕ → Instant → MaintenanceStep K V
  sweep_deques : ℕ → Instant → MaintenanceStep K V
  evict_for_size : ℕ → MaintenanceStep K V

module _ {K V : Type 0} (dec : Discrete K) (c : Config) where
  -- The body of the loop of `evict_expired_entries_using_timers` for an expired node.
  unfoldable pub evict_expired_entry : State K V → ℕ → Instant → Option (State K V)
  evict_expired_entry s i now =
      if is_dirty (s.shared.infos i)
      then some s
      else (let (s1, removed) =
            cht_remove_if_and_retire dec s (s.shared.infos i).key_hash.key
              (λ v. is_expired_by_per_entry_ttl (info_of s v) now) in
          elim removed [
            | none ↦ some s1
            | some e ↦
                handle_remove_without_timer_wheel
                  (record_eviction c s1 (s.shared.infos i).key_hash.key e expired) e none
          ])

  unfoldable pub sweep : State K V → ℕ → Instant → Option (State K V)
  sweep s batch_size now =
      if has_expiry c || is_some c.valid_after
      then evict_expired_entries_using_deqs dec c s batch_size now
      else some s

  unfoldable pub evict_overweight : State K V → ℕ → Option (State K V)
  evict_overweight s batch_size =
      if ltb 0 (weights_to_evict c s.counters)
      then evict_lru_entries dec c s batch_size (weights_to_evict c s.counters)
      else some s

  unfoldable pub run_step : State K V → MaintenanceStep K V → Option (State K V)
  unfolding evict_expired_entry sweep evict_overweight
  run_step s (process_reads ops) = apply_reads s ops
  run_step s (process_writes ops) = apply_writes dec c s ops
  run_step s (expire_timer i now) = evict_expired_entry s i now
  run_step s (sweep_deques batch_size now) = sweep s batch_size now
  run_step s (evict_for_size batch_size) = evict_overweight s batch_size

  unfoldable pub run_steps : State K V → List (MaintenanceStep K V) → Option (State K V)
  unfolding run_step
  run_steps s [] = some s
  run_steps s (step ∷ steps) = do s1 ← run_step s step; run_steps s1 steps
