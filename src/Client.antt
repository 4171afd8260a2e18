-- ===== src/Client.antt =====
-- src/sync/base_cache.rs and src/sync/cache.rs: the operations by which a client of the cache changes
-- the hash table, from `do_insert_with_hash` and `invalidate_with_hash` to the message for the
-- policies. The weigher, the clock and the allocator are in the arguments: the weight that the
-- weigher gives, the times of the clock's readings, and the address of a new info, which is also
-- that of its queue nodes. `others` is what other threads store to the expiration state meanwhile.
-- The hash table calls the last closure of `insert_with_or_modify` on the entry that it then has.
pub mod System
pub mod Contents
pub mod Insert
pub mod Invalidate
pub mod Messages
pub mod Refines
pub mod Steps
pub mod Runs
pub mod Reads
use mathlib.Core.Option
use moka.Base.{ℕ, List, ◌∷◌, Bool, true, false, ◌&&◌, Option, none, some, ◌>>=◌, leb, if◌then◌else◌}
use moka.Time
use moka.Time.{Instant, Duration}
use moka.EntryInfo
use moka.EntryInfo.{
  EntryInfo, KeyHash, expiration_state, incr_entry_gen, set_last_accessed, set_last_modified,
  set_policy_weight, set_expiration_time, last_accessed, last_modified,
}
use moka.Concurrent.{ValueEntry, WriteOp, upsert, remove, set_info, set_nodes, default_deq_nodes}
use moka.Cache.{
  State, Config, RemovalCause, expired, explicit, replaced, info_of, put_info, get, erase,
  cht_remove_if_and_retire,
}
use moka.Cache.Expiry.{is_expired_by_tti, is_expired_by_ttl, is_invalid_entry}
use moka.Get.{ExpireAfterRead, expire_after_read_or_update, is_map_disabled}

-- The user's `Expiry`. A call for an update gets what is left of the entry's life.
pub record Expiry (K V : Type 0) : Type 0 where
  pub expire_after_create : K → V → Instant → Option Duration
  pub expire_after_read : ExpireAfterRead K V
  pub expire_after_update : K → V → Instant → Option Duration → Option Duration

-- What `insert` is called with, and what its call meets.
pub record Insertion (K V : Type 0) : Type 0 where
  pub key_hash : KeyHash K
  pub value : V
  pub weight : ℕ
  pub ts : Instant
  pub now : Instant
  pub addr : ℕ
  pub others : List ℕ

pub record OldEntryInfo (V : Type 0) : Type 0 where
  pub entry : ValueEntry V
  pub last_accessed : Option Instant
  pub last_modified : Option Instant

abbrev pub has_expired_at : Option Instant → Instant → Bool
has_expired_at none ts = false
has_expired_at (some exp_time) ts = leb exp_time ts

abbrev pub cause_by_access : Config → RemovalCause → Option Instant → Instant → RemovalCause
cause_by_access c cause none now = cause
cause_by_access c cause (some accessed) now =
    if is_expired_by_tti c.time_to_idle accessed now then expired else cause

-- The cause that `notify_upsert` gives.
unfoldable pub upsert_cause : Config → Option Instant → Option Instant → Instant → RemovalCause
unfolding is_expired_by_tti is_expired_by_ttl is_invalid_entry
upsert_cause c accessed none now = cause_by_access c replaced accessed now
upsert_cause c accessed (some modified) now =
    if is_expired_by_ttl c.time_to_live modified now
    then expired
    else if is_invalid_entry c.valid_after modified
    then explicit
    else cause_by_access c replaced accessed now

-- The cause that `notify_invalidate` gives.
unfoldable pub invalidate_cause : Config → Option Instant → Option Instant → Instant → RemovalCause
unfolding is_expired_by_tti is_expired_by_ttl
invalidate_cause c accessed none now = cause_by_access c explicit accessed now
invalidate_cause c accessed (some modified) now =
    if is_expired_by_ttl c.time_to_live modified now
    then expired
    else cause_by_access c explicit accessed now

module _ {K V : Type 0} where
  abbrev pub old_entry_info : State K V → ValueEntry V → OldEntryInfo V
  old_entry_info s e = record {
    entry = e;
    last_accessed = last_accessed (info_of s e);
    last_modified = last_modified (info_of s e);
  }

  -- `notify_single_removal`, for any cause.
  unfoldable pub notify : Config → State K V → K → ValueEntry V → RemovalCause → State K V
  notify c s key e cause =
      if c.has_notifier then record s { notified = (key, e.value, cause) ∷ s.notified } else s

  unfoldable pub notify_upsert : Config → State K V → K → OldEntryInfo V → Instant → State K V
  unfolding upsert_cause notify
  notify_upsert c s key old now =
      notify c s key old.entry (upsert_cause c old.last_accessed old.last_modified now)

  unfoldable pub notify_invalidate : Config → State K V → K → ValueEntry V → Instant → State K V
  unfolding invalidate_cause notify
  notify_invalidate c s key e now =
      notify c s key e
        (invalidate_cause c (last_accessed (info_of s e)) (last_modified (info_of s e)) now)

  -- The new entry, with its generation.
  unfoldable pub new_value_entry : State K V → Insertion K V → State K V × ValueEntry V × ℕ
  unfolding EntryInfo.new
  new_value_entry s x =
      let info = EntryInfo.new x.key_hash x.ts x.weight in
      (
        record s { shared = set_nodes (set_info s.shared x.addr info) x.addr default_deq_nodes },
        record { value = x.value; info = x.addr; nodes = x.addr },
        info.entry_gen,
      )

  -- The entry that takes the place of `other`, with its generation.
  unfoldable pub new_value_entry_from :
      State K V → Insertion K V → ValueEntry V → State K V × ValueEntry V × ℕ
  unfolding incr_entry_gen
  new_value_entry_from s x other =
      let (info, gen) = incr_entry_gen (info_of s other) in
      (
        put_info s other.info
            (set_policy_weight (set_last_modified (set_last_accessed info x.ts) x.ts) x.weight),
        record { value = x.value; info = other.info; nodes = other.nodes },
        gen,
      )

  unfoldable pub expire_after_create :
      Expiry K V → List ℕ → State K V → K → ValueEntry V → Instant → State K V
  unfolding set_expiration_time
  expire_after_create expiry others s key e ts =
      put_info s e.info
        (set_expiration_time others (info_of s e) (
          Option.map (λ d. Time.saturating_add ts d) (expiry.expire_after_create key e.value ts))).0

  module _ (c : Config) where
    -- The call of the user's function for an entry that takes the place of another.
    unfoldable pub expire_updated :
        Expiry K V → State K V → Insertion K V → OldEntryInfo V → ValueEntry V → State K V
    unfolding expire_after_create expire_after_read_or_update expiration_state
    expire_updated user s x old e =
        if has_expired_at (expiration_state (info_of s old.entry)).0 x.ts
        then expire_after_create user x.others s x.key_hash.key e x.ts
        else put_info s e.info
            (expire_after_read_or_update
              (λ d. user.expire_after_update x.key_hash.key e.value x.ts d) c x.others (info_of s e)
              x.ts).0

    abbrev pub expired_state :
        Option (Expiry K V) → State K V → Insertion K V → OldEntryInfo V → ValueEntry V → State K V
    expired_state none s x old e = s
    expired_state (some user) s x old e = expire_updated user s x old e

  module _ (c : Config) (expiry : Option (Expiry K V)) where
    unfoldable pub do_post_insert_steps : State K V → Insertion K V → ValueEntry V → State K V
    unfolding expire_after_create
    do_post_insert_steps s x e = elim expiry [
      | none ↦ s
      | some user ↦ expire_after_create user x.others s x.key_hash.key e x.ts
    ]

    unfoldable pub do_post_update_steps :
        State K V → Insertion K V → OldEntryInfo V → ValueEntry V → State K V
    unfolding expire_updated notify_upsert
    do_post_update_steps s x old e =
        let s1 = expired_state c expiry s x old e in
        if c.has_notifier then notify_upsert c s1 x.key_hash.key old x.now else s1

    module _ (dec : Discrete K) where
      -- The map after `insert_with_or_modify` stored an entry.
      abbrev pub stored : State K V → K → ValueEntry V → State K V
      stored s key e = record s { cache = (key, e) ∷ erase dec key s.cache }

      unfoldable pub insert_new : State K V → Insertion K V → State K V × WriteOp K V
      unfolding new_value_entry do_post_insert_steps
      insert_new s x =
          let (s1, e, gen) = new_value_entry s x in
          (
            do_post_insert_steps (stored s1 x.key_hash.key e) x e,
            upsert x.key_hash e gen 0 x.weight,
          )

      unfoldable pub insert_over :
          State K V → Insertion K V → ValueEntry V → State K V × WriteOp K V
      unfolding new_value_entry_from do_post_update_steps
      insert_over s x other =
          let (s1, e, gen) = new_value_entry_from s x other in
          (
            do_post_update_steps (stored s1 x.key_hash.key e) x (old_entry_info s other) e,
            upsert x.key_hash e gen (info_of s other).policy_weight x.weight,
          )

      -- The state, and the message for the policies.
      unfoldable pub do_insert_with_hash : State K V → Insertion K V → State K V × WriteOp K V
      unfolding insert_new insert_over
      do_insert_with_hash s x = elim (get dec x.key_hash.key s.cache) [
        | none ↦ insert_new s x
        | some other ↦ insert_over s x other
      ]

      -- `insert_with_hash` up to the sending of its message.
      unfoldable pub insert_with_hash : State K V → Insertion K V → State K V × Option (WriteOp K V)
      unfolding do_insert_with_hash
      insert_with_hash s x =
          if is_map_disabled c
          then (s, none)
          else let (s1, op) = do_insert_with_hash s x in (s1, some op)

  module _ (dec : Discrete K) (c : Config) where
    unfoldable pub remove_entry : State K V → K → State K V × Option (ValueEntry V)
    unfolding cht_remove_if_and_retire
    remove_entry s key = cht_remove_if_and_retire dec s key (λ e. true)

    unfoldable pub after_removal :
        K
        → Bool
        → Instant
        → State K V × Option (ValueEntry V)
        → State K V × Option (WriteOp K V) × Option V
    unfolding incr_entry_gen notify_invalidate
    after_removal key need_value now (s, none) = (s, none, none)
    after_removal key need_value now (s, some e) =
        let (info, gen) = incr_entry_gen (info_of s e) in
        let s1 = put_info s e.info info in
        (
          if c.has_notifier then notify_invalidate c s1 key e now else s1,
          some (remove key e gen),
          if need_value then some e.value else none,
        )

    -- `invalidate_with_hash` up to the sending of its message, and the removed value if it is needed.
    unfoldable pub invalidate_with_hash :
        State K V → K → Bool → Instant → State K V × Option (WriteOp K V) × Option V
    unfolding remove_entry after_removal
    invalidate_with_hash s key need_value now =
        after_removal key need_value now (remove_entry s key)
