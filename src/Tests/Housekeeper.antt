-- ===== src/Tests/Housekeeper.antt =====
-- Tests of src/common/concurrent/housekeeper.rs.
use moka.Base.{ℕ, ◌+◌, ◌≡◌, refl, [], ◌∷◌, Bool, true, false, some, arith}
use moka.Housekeeper.{
  InnerSync, HousekeeperConfig, new_housekeeper, do_run_pending_tasks, should_apply,
  should_apply_reads, should_apply_writes,
}
use moka.Housekeeper.Due.{after_runs, should_apply-after_runs, should_apply_reads_due}

-- A cache whose state is its clock, which a run moves on, with nothing left to evict.
abbrev clock : InnerSync ℕ
clock = record { run_pending_tasks = λ s timeout repeats batch_size. (s + 50, false); now = λ s. s }

abbrev config : HousekeeperConfig
config = record {
  maintenance_task_timeout = 100_000_000;
  max_log_sync_repeats = 4;
  eviction_batch_size = 384;
}

should_apply-after_runs_example :
    (b : Bool) × (should_apply
        (after_runs clock (new_housekeeper true config 7) (1_000 ∷ 2_000 ∷ []))
        3
        64
        5_000
      ≡ some b)
should_apply-after_runs_example =
    should_apply-after_runs clock true config 7 (1_000 ∷ 2_000 ∷ []) 3 64 5_000

enabled : (new_housekeeper false config 7).auto_run_enabled ≡ true
unfolding new_housekeeper
enabled = refl

should_apply_reads_due_example :
    (should_apply_reads
        ((do_run_pending_tasks clock (new_housekeeper false config 7) 1_000).0)
        0
        400_000_000
      ≡ some true)
    × (should_apply_writes
          ((do_run_pending_tasks clock (new_housekeeper false config 7) 1_000).0)
          0
          400_000_000
        ≡ some true)
should_apply_reads_due_example =
    should_apply_reads_due clock (new_housekeeper false config 7) 1_000 0 400_000_000 enabled
      (omega arith) (omega arith)
