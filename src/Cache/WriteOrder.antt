-- ===== src/Cache/WriteOrder.antt =====
-- src/sync/base_cache.rs: the evictions from the write-order deque, and the sweep over both orders.
use moka.Base.{
  ℕ, zero, suc, Bool, true, false, [], ◌∷◌, ◌||◌, Option, none, some, ◌>>=◌, ◌==◌, if◌then◌else◌,
}
use moka.Time.{Instant}
use moka.EntryInfo.{is_dirty, last_modified}
use moka.Concurrent.{ValueEntry}
use moka.Cache.{
  State, Config, RemovalCause, info_of, is_some, is_write_order_queue_enabled,
  cht_remove_if_and_retire, record_eviction,
}
use moka.Cache.Expiry.{is_entry_expired_wo_or_invalid, is_expired_entry_wo}
use moka.Cache.Policy.{handle_remove}
use moka.Cache.Evict.{Front, cause_of, skip_updated_entry_wo, note_more, remove_expired_ao}

module _ {K V : Type 0} (dec : Discrete K) (c : Config) where
  abbrev pub peek_front_wo : State K V → Option (Front K)
  peek_front_wo s = elim s.deques.write_order [
    | [] ↦ none
    | (a, i) ∷ q ↦
        some (
          (s.shared.infos i).key_hash,
          is_dirty (s.shared.infos i),
          last_modified (s.shared.infos i),
        )
  ]

  -- The removal of the entry of a key if it has expired; `none` inside says that it was skipped.
  unfoldable pub try_expire_wo :
      State K V → K → RemovalCause → Instant → Option (State K V × Option (ValueEntry V))
  try_expire_wo s key cause now =
      let (s1, removed) =
        cht_remove_if_and_retire dec s key
          (λ e. is_expired_entry_wo c.time_to_live c.valid_after (info_of s e) now) in
      elim removed [
        | none ↦ do s2 ← skip_updated_entry_wo dec c s1 key; some (s2, none)
        | some e ↦ do
          s2 ← handle_remove (record_eviction c s1 key e cause) e none
          some (s2, some e)
      ]

  unfoldable pub expire_wo_loop : ℕ → State K V → Instant → Bool → Option (State K V × Bool)
  unfolding try_expire_wo skip_updated_entry_wo cause_of
  expire_wo_loop zero s now more = some (s, more)
  expire_wo_loop (suc batch) s now more = elim (peek_front_wo s) [
    | none ↦ some (s, false)
    | some (kh, true, modified) ↦ do
      s1 ← skip_updated_entry_wo dec c s kh.key
      expire_wo_loop batch s1 now false
    | some (kh, false, none) ↦ do
      s1 ← skip_updated_entry_wo dec c s kh.key
      expire_wo_loop batch s1 now false
    | some (kh, false, some ts) ↦
        elim (cause_of (is_entry_expired_wo_or_invalid c.time_to_live c.valid_after ts now)) [
          | none ↦ some (s, false)
          | some cause ↦ do
            (s1, removed) ← try_expire_wo s kh.key cause now
            expire_wo_loop batch s1 now (if is_some removed then more else false)
        ]
  ]

  unfoldable pub remove_expired_wo : State K V → ℕ → Instant → Option (State K V)
  unfolding expire_wo_loop
  remove_expired_wo s batch_size now = do
    (s1, more) ← expire_wo_loop batch_size s now true
    some (note_more dec c s1 more)

  -- `remove_expired_ao` of a region with no nodes, as the window and the protected one are: the first
  -- turn ends the loop, if there is one.
  abbrev pub remove_expired_empty : State K V → ℕ → State K V
  remove_expired_empty s batch_size = note_more dec c s (batch_size == 0)

  -- The three calls of `remove_expired_ao`, in the order of the regions.
  unfoldable pub remove_expired_regions : State K V → ℕ → Instant → Option (State K V)
  unfolding remove_expired_ao
  remove_expired_regions s batch_size now = do
    s1 ← remove_expired_ao dec c (remove_expired_empty s batch_size) batch_size now
    some (remove_expired_empty s1 batch_size)

  unfoldable pub evict_expired_entries_using_deqs : State K V → ℕ → Instant → Option (State K V)
  unfolding remove_expired_wo remove_expired_regions
  evict_expired_entries_using_deqs s batch_size now = do
    s1 ← if is_write_order_queue_enabled c then remove_expired_wo s batch_size now else some s
    if is_some c.time_to_idle || is_some c.valid_after
        then remove_expired_regions s1 batch_size now
        else some s1
