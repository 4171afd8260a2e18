-- ===== src/Housekeeper.antt =====
-- src/common/concurrent/housekeeper.rs and the constants of src/common/concurrent/constants.rs: when
-- the maintenance is due, and what a run leaves. `none` as an outcome is the panic of `unwrap`. The
-- run lock is the flag `is_locked` of `try_run_pending_tasks`.
pub mod Due
use moka.Base.{ℕ, ◌*◌, Bool, true, false, Option, none, some, ◌>>=◌, leb, if◌then◌else◌}
use mathlib.Core.Option
use moka.Time
use moka.Time.{Instant, Duration, instant, set_instant}

abbrev pub read_log_flush_point : ℕ
read_log_flush_point = 64

abbrev pub write_log_flush_point : ℕ
write_log_flush_point = 64

-- `LOG_SYNC_INTERVAL_MILLIS` as a duration.
abbrev pub log_sync_interval : Duration
log_sync_interval = 300 * 1_000_000

-- What the housekeeper asks of a cache with the state `S`.
pub record InnerSync (S : Type 0) : Type 0 where
  pub run_pending_tasks : S → Option Duration → ℕ → ℕ → S × Bool
  pub now : S → Instant

pub record HousekeeperConfig : Type 0 where
  pub maintenance_task_timeout : Duration
  pub max_log_sync_repeats : ℕ
  pub eviction_batch_size : ℕ

pub record Housekeeper : Type 0 where
  -- The cell of an `AtomicInstant`.
  pub run_after : ℕ
  pub more_entries_to_evict : Option Bool
  pub maintenance_task_timeout : Option Duration
  pub max_log_sync_repeats : ℕ
  pub eviction_batch_size : ℕ
  pub auto_run_enabled : Bool

abbrev pub sync_after : Instant → Instant
sync_after now = Time.saturating_add now log_sync_interval

unfoldable pub new_housekeeper : Bool → HousekeeperConfig → Instant → Housekeeper
new_housekeeper is_eviction_listener_enabled config now = record {
  run_after = set_instant 0 (sync_after now);
  more_entries_to_evict = if is_eviction_listener_enabled then some false else none;
  maintenance_task_timeout =
      if is_eviction_listener_enabled then some config.maintenance_task_timeout else none;
  max_log_sync_repeats = config.max_log_sync_repeats;
  eviction_batch_size = config.eviction_batch_size;
  auto_run_enabled = true;
}

abbrev pub more_entries : Housekeeper → Bool
more_entries h = elim h.more_entries_to_evict [ none ↦ false | some v ↦ v ]

abbrev pub set_more_entries_to_evict : Housekeeper → Bool → Housekeeper
set_more_entries_to_evict h v = record h {
  more_entries_to_evict = Option.map (λ old. v) h.more_entries_to_evict;
}

unfoldable pub should_apply : Housekeeper → ℕ → ℕ → Instant → Option Bool
should_apply h ch_len ch_flush_point now =
    if h.auto_run_enabled
    then if leb ch_flush_point ch_len
      then some true
      else elim (instant h.run_after) [ none ↦ none | some after ↦ some (leb after now) ]
    else some false

unfoldable pub should_apply_reads : Housekeeper → ℕ → Instant → Option Bool
unfolding should_apply
should_apply_reads h ch_len now =
    if more_entries h then some true else should_apply h ch_len read_log_flush_point now

unfoldable pub should_apply_writes : Housekeeper → ℕ → Instant → Option Bool
unfolding should_apply
should_apply_writes h ch_len now =
    if more_entries h then some true else should_apply h ch_len write_log_flush_point now

module _ {S : Type 0} (c : InnerSync S) where
  unfoldable pub do_run_pending_tasks : Housekeeper → S → Housekeeper × S
  do_run_pending_tasks h s =
      let h1 = record h { run_after = set_instant h.run_after (sync_after (c.now s)) } in
      let (s', more_to_evict) =
        c.run_pending_tasks s h1.maintenance_task_timeout h1.max_log_sync_repeats
          h1.eviction_batch_size in
      (set_more_entries_to_evict h1 more_to_evict, s')

  -- The result says whether the lock was free.
  unfoldable pub try_run_pending_tasks : Bool → Housekeeper → S → Housekeeper × S × Bool
  unfolding do_run_pending_tasks
  try_run_pending_tasks is_locked h s =
      if is_locked
      then (h, s, false)
      else ((do_run_pending_tasks h s).0, (do_run_pending_tasks h s).1, true)
