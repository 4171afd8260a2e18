-- ===== src/Tests/Get.antt =====
-- Tests of the lookups of src/sync/base_cache.rs.
use moka.Base.{ℕ, ◌+◌, ◌≡◌, ◌≢◌, ◌↔◌, true, false, refl, [], Option, none, some, arith, ℕ_discrete}
use moka.EntryInfo.{last_modified, set_last_accessed, expiration_state, unpack}
use moka.Cache.Expiry.{
  is_expired_by_per_entry_ttl, is_expired_entry_ao, is_expired_entry_wo, is_invalid_entry,
  is_expired_by_tti, is_expired_by_ttl,
}
use moka.Concurrent.{ValueEntry, ReadOp, hit}
use moka.Cache.{State, get, info_of, put_info}
use moka.Cache.Invariant.{IsConsistent}
use moka.Get.{
  ExpireAfterRead, invalidate_all, scanning_get, do_get, contains_key, find_entry, read_entry,
  is_invalidated_entry,
}
use moka.Get.Found.{Finds}
use moka.Get.Agree.{lookups_agree}
use moka.Get.Live.{IsRecordable, do_get-IsConsistent, scanning_get-invalidate_all}
use moka.Tests.Maintenance.{IsHundred, config, start, start-IsConsistent, value}

-- A read gives the entry 2,000 ns more than it has left.
abbrev two_more : ExpireAfterRead ℕ ℕ
two_more key v now none modified = some 2_000
two_more key v now (some d) modified = some (d + 2_000)

modified :
    (e : ValueEntry ℕ)
    → get ℕ_discrete 1 start.cache ≡ some e
    → last_modified (info_of start e) ≢ none
modified e g h = cc

do_get-IsConsistent_example :
    (s' : State ℕ ℕ) × (found : Option ℕ) × (op : Option (ReadOp ℕ)) × (do_get ℕ_discrete config
        none none
        (some two_more)
        []
        start
        1
        1
        5_500
      ≡ some (s', found, op))
    × ((x : ℕ) → (found ≡ some x) ↔ Finds ℕ_discrete config none none start 1 5_500 x)
    × IsConsistent IsHundred s'
    × IsRecordable op
do_get-IsConsistent_example =
    do_get-IsConsistent ℕ_discrete config none none (some two_more) [] start 1 1 5_500
      start-IsConsistent (λ n. modified)

here : get ℕ_discrete 1 start.cache ≡ some (value 1)
unfolding get ℕ_discrete
here = refl

scanning_get-invalidate_all_example :
    scanning_get ℕ_discrete (invalidate_all config 5_001) none start 1 5_500 ≡ none
scanning_get-invalidate_all_example =
    scanning_get-invalidate_all ℕ_discrete config none start 1 (value 1) 5_000 5_001 5_500 here refl
      (omega arith)

-- The state that the read of the key 1 leaves.
abbrev after_read : State ℕ ℕ
after_read = put_info start 1 (set_last_accessed (info_of start (value 1)) 5_500)

read_first :
    do_get ℕ_discrete config none none none [] start 1 1 5_500
    ≡ some (after_read, some 100, some (hit (value 1) false))
unfolding do_get find_entry read_entry get ℕ_discrete is_expired_by_per_entry_ttl
    is_expired_entry_wo is_expired_entry_ao is_invalid_entry is_expired_by_ttl is_expired_by_tti
    expiration_state unpack is_invalidated_entry
read_first = refl

lookups_agree_example :
    (some 100 ≡ scanning_get ℕ_discrete config none start 1 5_500)
    × (contains_key ℕ_discrete config none start 1 5_500 ≡ true)
lookups_agree_example =
    lookups_agree ℕ_discrete config none start 1 5_500 none [] 1 after_read (some 100)
      (some (hit (value 1) false)) refl read_first
