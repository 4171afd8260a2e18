-- ===== src/Housekeeper/Due.antt =====
-- src/common/concurrent/housekeeper.rs: when a run is due.
use moka.Base.{ℕ, ◌+◌, ◌≤◌, ◌≡◌, List, [], ◌∷◌, Bool, true, ◌&&◌, ◌||◌, some, leb, arith}
use moka.Time.{Instant, max_nanos}
use moka.Housekeeper.{
  Housekeeper, HousekeeperConfig, InnerSync, new_housekeeper, do_run_pending_tasks, should_apply,
  should_apply_reads, should_apply_writes, log_sync_interval,
}

-- The time of the next run is known.
abbrev pub IsTimed : Housekeeper → Type 0
IsTimed h = h.run_after ≤ max_nanos

module _ {S : Type 0} (c : InnerSync S) where
  -- The maintenance runs that start at the states of a list, each on what the last one left of the
  -- housekeeper.
  abbrev pub after_runs : Housekeeper → List S → Housekeeper
  after_runs h [] = h
  after_runs h (s ∷ states) = after_runs ((do_run_pending_tasks c h s).0) states

  run-IsTimed : (h : Housekeeper) (s : S) → IsTimed ((do_run_pending_tasks c h s).0)
  unfolding do_run_pending_tasks
  run-IsTimed h s = ground arith

  after_runs-IsTimed :
      (h : Housekeeper) (states : List S) → IsTimed h → IsTimed (after_runs h states)
  after_runs-IsTimed h [] t = t
  after_runs-IsTimed h (s ∷ states) t =
      after_runs-IsTimed ((do_run_pending_tasks c h s).0) states (run-IsTimed h s)

  should_apply_total :
      (h : Housekeeper) (ch_len ch_flush_point : ℕ) (now : Instant)
      → IsTimed h
      → (b : Bool) × (should_apply h ch_len ch_flush_point now ≡ some b)
  unfolding should_apply
  should_apply_total h ch_len ch_flush_point now t =
      (h.auto_run_enabled && (leb ch_flush_point ch_len || leb h.run_after now), ground (arith, t))

  -- After any maintenance runs on a new housekeeper, the test whether to apply the recorded
  -- operations has an answer: its unwrap does not panic.
  pub should_apply-after_runs :
      (notifies : Bool) (config : HousekeeperConfig) (start : Instant) (states : List S)
      (ch_len ch_flush_point : ℕ) (now : Instant)
      → (b : Bool) × (should_apply
            (after_runs (new_housekeeper notifies config start) states)
            ch_len
            ch_flush_point
            now
          ≡ some b)
  should_apply-after_runs notifies config start states ch_len ch_flush_point now =
      should_apply_total (after_runs (new_housekeeper notifies config start) states) ch_len
        ch_flush_point now
        (after_runs-IsTimed (new_housekeeper notifies config start) states
          (unfold new_housekeeper in ground arith))

  -- Once the interval of 300 ms has passed since a maintenance run, with automatic runs enabled
  -- and up to the largest instant, the next read and the next write are told to run the
  -- maintenance, however few operations are recorded.
  pub should_apply_reads_due :
      (h : Housekeeper) (s : S) (ch_len : ℕ) (now : Instant)
      → h.auto_run_enabled ≡ true
      → c.now s + log_sync_interval ≤ now
      → now ≤ max_nanos
      → (should_apply_reads ((do_run_pending_tasks c h s).0) ch_len now ≡ some true)
        × (should_apply_writes ((do_run_pending_tasks c h s).0) ch_len now ≡ some true)
  unfolding should_apply_reads should_apply_writes should_apply do_run_pending_tasks
  should_apply_reads_due h s ch_len now a d b = (ground (arith, a, d, b), ground (arith, a, d, b))
