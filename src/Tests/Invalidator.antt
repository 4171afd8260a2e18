-- ===== src/Tests/Invalidator.antt =====
-- Tests of src/sync/invalidator.rs.
use moka.Base.{ℕ, ◌≡◌, refl, List, [], ◌∷◌, Bool, true, false, none, some, ℕ_discrete, leb}
use moka.Time.{Instant}
use moka.Cache.{State, get}
use moka.Cache.Invariant.{IsConsistent}
use moka.Tests.Maintenance.{IsHundred, config, start, start-IsConsistent, value}
use moka.Invalidator.{
  Predicate, KeyDateLite, Invalidator, new_invalidator, scan, remove_invalidated,
  register_predicate, register_loop, remove_predicates_registered_before, retain, contains_id,
  remove_finished_predicates, remove_predicates,
}
use moka.Invalidator.Flag.{
  RegistryOp, register, expire_before, finish_scan, run_registry_ops, IsFlagged,
  run_registry_ops-IsFlagged,
}
use moka.Invalidator.Scan.{remove_invalidated-scan}
use moka.Invalidator.Unmet.{IsUnmet}
use moka.Invalidator.Keeps.{get-scan}

abbrev is_small : ℕ → ℕ → Bool
is_small key v = leb key 1

-- Registered after the entries were written, for the keys up to 1.
abbrev small_keys : Predicate ℕ ℕ
small_keys = record { id = 7; f = is_small; registered_at = 6_000 }

abbrev candidates : List (KeyDateLite ℕ)
candidates = record { key = 1; timestamp = 5_000 } ∷ record { key = 2; timestamp = 5_000 } ∷ []

remove_invalidated-scan_example :
    let (s1, invalidated) = scan ℕ_discrete config (small_keys ∷ []) start candidates in
    (s' : State ℕ ℕ) × (remove_invalidated ℕ_discrete config s1 invalidated ≡ some s')
    × IsConsistent IsHundred s'
remove_invalidated-scan_example =
    remove_invalidated-scan ℕ_discrete config (small_keys ∷ []) start candidates start-IsConsistent

kept : get ℕ_discrete 2 start.cache ≡ some (value 2)
unfolding get ℕ_discrete
kept = refl

not_small : (lm : Instant) → IsUnmet (small_keys ∷ []) 2 100 lm
not_small lm = (λ b. refl, tt)

get-scan_example :
    get ℕ_discrete 2 ((scan ℕ_discrete config (small_keys ∷ []) start candidates).0).cache
    ≡ some (value 2)
get-scan_example =
    get-scan ℕ_discrete config (small_keys ∷ []) start candidates 2 (value 2) kept
      (λ lm m. not_small lm)

abbrev operations : List (RegistryOp ℕ ℕ)
operations =
    register (λ n. n) is_small 6_000
    ∷ expire_before 7_000
    ∷ register (λ n. n) is_small 8_000
    ∷ finish_scan true (some 7_500)
    ∷ finish_scan false none
    ∷ []

abbrev emptied : Invalidator ℕ ℕ
emptied = record { predicates = []; is_empty = true; scanning = [] }

runs : run_registry_ops new_invalidator operations ≡ some emptied
unfolding new_invalidator register_predicate register_loop remove_predicates_registered_before
    retain contains_id remove_finished_predicates remove_predicates
runs = refl

run_registry_ops-IsFlagged_example : IsFlagged emptied
run_registry_ops-IsFlagged_example = run_registry_ops-IsFlagged operations emptied runs
