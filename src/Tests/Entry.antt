-- ===== src/Tests/Entry.antt =====
-- Tests of src/common/time and src/common/concurrent/entry_info.rs.
use moka.Base.{ℕ, ◌≤◌, ◌≡◌, refl, ◌↔◌, [], ◌∷◌, none, some, true, false, inl, arith}
use moka.Base.Word.{u16_max}
use moka.Time
use moka.Time.{Instant}
use moka.EntryInfo.{
  EntryInfo, new, is_dirty, incr_entry_gen, set_policy_gen, set_expiration_time, expiration_state,
  unpack, pack, next_gen, expiration_loop,
}
use moka.EntryInfo.Generations.{
  set_policy_gen-clean, set_policy_gen-late, incr_entry_gen-dirty, set_policy_gen-max,
  wrapped_stays_dirty,
}
use moka.EntryInfo.Expiration.{
  expiration_state-set_expiration_time, set_times, stale_gen_iff, read_time,
}

abbrev info : EntryInfo ℕ
info = record {
  key_hash = record { key = 42; hash = 0xdeadbeef };
  is_admitted = false;
  is_retired = false;
  entry_gen = 3;
  policy_gen = 1;
  expiration_state = 0xffff_ffff_ffff_f000;
  last_accessed = 0;
  last_modified = 0;
  policy_weight = 1;
}

abbrev worn : EntryInfo ℕ
worn = record info { entry_gen = u16_max; policy_gen = u16_max }

saturating_add_bounds_example :
    (100_000 ≤ Time.saturating_add 100_000 50_000)
    × (Time.saturating_add 100_000 50_000 ≤ Time.max_nanos)
    × (150_000 ≤ Time.max_nanos → Time.saturating_add 100_000 50_000 ≡ 150_000)
saturating_add_bounds_example = Time.saturating_add_bounds 100_000 50_000 (omega arith)

saturating_add-le_iff_example :
    (Time.saturating_add 5 10 ≤ 20) ↔ (10 ≤ Time.saturating_duration_since 20 5)
saturating_add-le_iff_example = Time.saturating_add-le_iff 5 10 20 (omega arith) (omega arith)

fresh_is_dirty : is_dirty (new {K = ℕ} (record { key = 42; hash = 7 }) 0 1) ≡ true
unfolding new
fresh_is_dirty = refl

set_policy_gen-clean_example : is_dirty (set_policy_gen [] info 3) ≡ false
set_policy_gen-clean_example = set_policy_gen-clean info (omega arith) (omega arith) (omega arith)

set_policy_gen-late_example : set_policy_gen [] info 0 ≡ info
set_policy_gen-late_example =
    set_policy_gen-late info 0 (omega arith) (omega arith) (inl (omega arith))

set_policy_gen-max_example : (set_policy_gen (7 ∷ []) worn 0).policy_gen ≡ u16_max
set_policy_gen-max_example = set_policy_gen-max worn (7 ∷ []) 0 refl (omega arith)

incr_entry_gen-dirty_example : is_dirty (incr_entry_gen worn).0 ≡ true
incr_entry_gen-dirty_example = incr_entry_gen-dirty worn (omega arith) (omega arith) refl

wrapped_stays_dirty_example :
    ((incr_entry_gen worn).1 ≡ 0)
    × (is_dirty (set_policy_gen [] (incr_entry_gen worn).0 (incr_entry_gen worn).1) ≡ true)
wrapped_stays_dirty_example = wrapped_stays_dirty worn [] refl refl

expiration_state-set_expiration_time_example :
    expiration_state (set_expiration_time [] info (some 10_000)).0
    ≡ (read_time (some 10_000), (set_expiration_time [] info (some 10_000)).1)
expiration_state-set_expiration_time_example =
    expiration_state-set_expiration_time [] info (some 10_000) (omega arith)

expiration_run : expiration_state (set_expiration_time [] info (some 10_000)).0 ≡ (some 8192, 1)
unfolding set_expiration_time expiration_state expiration_loop pack unpack next_gen
expiration_run = refl

stale_gen_iff_example :
    ((expiration_state (set_times (some 5000 ∷ none ∷ []) info)).1 ≡ (expiration_state info).1)
    ↔ (◌≡◌ {A = ℕ} 2 0)
stale_gen_iff_example = stale_gen_iff (some 5000 ∷ none ∷ []) info (omega arith)
