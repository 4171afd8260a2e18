-- ===== src/Get.antt =====
-- src/sync/base_cache.rs: the lookups of `BaseCache`. An instant of the standard library is the
-- nanoseconds since the origin of the clock. `now` is what the clock gives at the call, and a
-- recorded read is part of the outcome, for the channel.
pub mod Expired
pub mod Found
pub mod Live
pub mod Agree
use mathlib.Core.Option
use moka.Base.{
  ℕ, max, min, List, Bool, true, false, not, ◌&&◌, ◌||◌, Option, none, some, ◌>>=◌, ◌==◌,
  if◌then◌else◌,
}
use moka.Time
use moka.Time.{Instant, Duration, saturating_duration_since}
use moka.EntryInfo.{
  EntryInfo, expiration_state, set_expiration_time, last_modified, last_accessed, set_last_accessed,
}
use moka.Concurrent.{ValueEntry, ReadOp, hit, miss}
use moka.Cache.{State, Config, info_of, put_info, get}
use moka.Cache.Expiry.{is_expired_by_per_entry_ttl, is_expired_entry_ao, is_expired_entry_wo}
use moka.Cache.Handle.{same_instant}
use moka.Invalidator.{Invalidator, apply_predicates}

abbrev pub is_map_disabled : Config → Bool
is_map_disabled c = elim c.max_capacity [ none ↦ false | some limit ↦ limit == 0 ]

abbrev pub earlier : Option Instant → Option Instant → Option Instant
earlier none u = u
earlier (some t) none = some t
earlier (some t) (some u) = some (min t u)

-- `invalidate_all`.
unfoldable pub invalidate_all : Config → Instant → Config
invalidate_all c now = record c { valid_after = some now }

-- The user's `expire_after_read`, which gets the key, the value, the time of the read, what is left
-- of the entry's life, and the time of its last modification.
abbrev pub ExpireAfterRead : Type 0 → Type 0 → Type 0
ExpireAfterRead K V = K → V → Instant → Option Duration → Instant → Option Duration

module _ {K : Type 0} where
  -- `expiry` is the user's function at its other arguments, `others` what other threads store to the
  -- expiration state meanwhile.
  unfoldable pub expire_after_read_or_update :
      (Option Duration → Option Duration)
      → Config
      → List ℕ
      → EntryInfo K
      → Instant
      → EntryInfo K × Bool
  expire_after_read_or_update expiry c others info ts =
      let by_ttl = (do
        ttl ← c.time_to_live
        lm ← last_modified info
        some (Time.saturating_add lm ttl)) in
      let by_tti = (do
        tti ← c.time_to_idle
        la ← last_accessed info
        some (Time.saturating_add la tti)) in
      let exp_time = earlier (expiration_state info).0 (earlier by_ttl by_tti) in
      let current_duration = Option.map (λ time. saturating_duration_since time ts) exp_time in
      let duration = expiry current_duration in
      if same_instant duration current_duration then (info, false) else (
        (set_expiration_time others info (Option.map (λ d. Time.saturating_add ts d) duration)).0,
        true,
      )

module _ {K V : Type 0} where
  unfoldable pub is_invalidated_entry :
      Option (Invalidator K V) → State K V → K → ValueEntry V → Bool
  is_invalidated_entry none s key e = false
  is_invalidated_entry (some v) s key e = apply_predicates v s key e

  module _ (dec : Discrete K) (c : Config) (v : Option (Invalidator K V)) where
    unfoldable pub contains_key : State K V → K → Instant → Bool
    unfolding is_invalidated_entry
    contains_key s key now = elim (get dec key s.cache) [
      | none ↦ false
      | some e ↦
          not (is_expired_by_per_entry_ttl (info_of s e) now)
          && not (is_expired_entry_wo c.time_to_live c.valid_after (info_of s e) now)
          && not (is_expired_entry_ao c.time_to_idle c.valid_after (info_of s e) now)
          && not (is_invalidated_entry v s key e)
    ]

    unfoldable pub scanning_get : State K V → K → Instant → Option V
    unfolding is_invalidated_entry
    scanning_get s key now = elim (get dec key s.cache) [
      | none ↦ none
      | some e ↦
          if is_expired_by_per_entry_ttl (info_of s e) now
            || is_expired_entry_wo c.time_to_live c.valid_after (info_of s e) now
            || is_expired_entry_ao c.time_to_idle c.valid_after (info_of s e) now
            || is_invalidated_entry v s key e
          then none
          else some e.value
    ]

    -- The entry that a lookup finds.
    unfoldable pub find_entry : Option (V → Bool) → State K V → K → Instant → Option (ValueEntry V)
    unfolding is_invalidated_entry
    find_entry ignore_if s key now = elim (get dec key s.cache) [
      | none ↦ none
      | some e ↦
          if elim ignore_if [ none ↦ false | some ignores ↦ ignores e.value ]
          then none
          else if is_expired_by_per_entry_ttl (info_of s e) now
              || is_expired_entry_wo c.time_to_live c.valid_after (info_of s e) now
              || is_expired_entry_ao c.time_to_idle c.valid_after (info_of s e) now
              || is_invalidated_entry v s key e
          then none
          else some e
    ]

    -- The read of an entry that was found; `none` is the panic of `expect`.
    unfoldable pub read_entry :
        Option (ExpireAfterRead K V)
        → List ℕ
        → State K V
        → ValueEntry V
        → Instant
        → Option (State K V × Bool)
    unfolding expire_after_read_or_update
    read_entry none others s e now =
        some (put_info s e.info (set_last_accessed (info_of s e) now), false)
    read_entry (some expiry) others s e now = elim (last_modified (info_of s e)) [
      | none ↦ none
      | some lm ↦
          let ts = max now lm in
          let (info, modified) =
            expire_after_read_or_update (λ d. expiry (info_of s e).key_hash.key e.value ts d lm) c
              others (info_of s e) ts in
          some (put_info s e.info (set_last_accessed info ts), modified)
    ]

    -- The state after the lookup, the value, and the read to record.
    unfoldable pub do_get :
        Option (V → Bool)
        → Option (ExpireAfterRead K V)
        → List ℕ
        → State K V
        → K
        → ℕ
        → Instant
        → Option (State K V × Option V × Option (ReadOp V))
    unfolding find_entry read_entry
    do_get ignore_if expiry others s key hash now =
        if is_map_disabled c then some (s, none, none) else elim (find_entry ignore_if s key now) [
          | none ↦ some (s, none, some (miss hash))
          | some e ↦ do
            (s1, modified) ← read_entry expiry others s e now
            some (s1, some e.value, some (hit e modified))
        ]
