-- ===== src/Cache/Evict.antt =====
-- src/sync/base_cache.rs: the evictions from the access-order deque, for expiry and for size. The
-- region of `remove_expired_ao` is the probation deque, as in its calls on a non-empty deque.
use moka.Base.{
  ℕ, zero, suc, Bool, true, false, [], ◌∷◌, Option, none, some, ◌>>=◌, leb, ◌==◌, if◌then◌else◌,
}
use moka.Base.Word.{saturating_add_u64}
use moka.Time.{Instant}
use moka.EntryInfo.{KeyHash, is_dirty, last_accessed}
use moka.Concurrent.{ValueEntry}
use moka.Deques.{move_to_back_ao, move_to_back_wo}
use moka.Queue.{move_front_to_back}
use moka.Cache.{
  State, Config, RemovalCause, expired, explicit, size, get, info_of, is_some,
  cht_remove_if_and_retire, record_eviction,
}
use moka.Cache.Expiry.{is_entry_expired_ao_or_invalid, is_expired_entry_ao}
use moka.Cache.Policy.{handle_remove_with_deques}

-- What the code reads of a front node: key, hash, dirtiness and last access.
abbrev pub Front : Type 0 → Type 0
Front K = KeyHash K × Bool × Option Instant

-- The cause of a removal, if there is one: expired by the time to idle, or invalidated.
unfoldable pub cause_of : Bool × Bool → Option RemovalCause
cause_of (true, invalid) = some expired
cause_of (false, true) = some explicit
cause_of (false, false) = none

module _ {K V : Type 0} (dec : Discrete K) (c : Config) where
  abbrev pub peek_front : State K V → Option (Front K)
  peek_front s = elim s.deques.probation [
    | [] ↦ none
    | (a, i) ∷ q ↦
        some (
          (s.shared.infos i).key_hash,
          is_dirty (s.shared.infos i),
          last_accessed (s.shared.infos i),
        )
  ]

  unfoldable pub skip_updated_entry_ao : State K V → K → Option (State K V)
  skip_updated_entry_ao s key = elim (get dec key s.cache) [
    | none ↦ some (record s {
      deques = record s.deques { probation = move_front_to_back s.deques.probation };
    })
    | some e ↦ do
      d ← move_to_back_ao s.deques s.shared e.nodes
      some (record s {
        deques = if is_dirty (info_of s e) then move_to_back_wo d s.shared e.nodes else d;
      })
  ]

  unfoldable pub skip_updated_entry_wo : State K V → K → Option (State K V)
  skip_updated_entry_wo s key = elim (get dec key s.cache) [
    | none ↦ some (record s {
      deques = record s.deques { write_order = move_front_to_back s.deques.write_order };
    })
    | some e ↦ do
      d ← move_to_back_ao s.deques s.shared e.nodes
      some (record s { deques = move_to_back_wo d s.shared e.nodes })
  ]

  -- The removal of the entry of a key under a condition; `none` inside says that it was skipped.
  unfoldable pub try_evict :
      State K V
      → K
      → RemovalCause
      → (ValueEntry V → Bool)
      → Option (State K V × Option (ValueEntry V))
  try_evict s key cause condition =
      let (s1, removed) = cht_remove_if_and_retire dec s key condition in
      elim removed [
        | none ↦ do s2 ← skip_updated_entry_ao s1 key; some (s2, none)
        | some e ↦ do
          s2 ← handle_remove_with_deques (record_eviction c s1 key e cause) e
          some (s2, some e)
      ]

  abbrev pub accessed_at : State K V → Instant → ValueEntry V → Bool
  accessed_at s ts e = elim (last_accessed (info_of s e)) [ none ↦ false | some la ↦ la == ts ]

  -- The `for` loop of `evict_lru_entries` with `evicted` and `more_to_evict`.
  unfoldable pub evict_loop : ℕ → State K V → ℕ → ℕ → Bool → Option (State K V × ℕ × Bool)
  unfolding try_evict skip_updated_entry_ao
  evict_loop zero s weights_to_evict evicted more = some (s, evicted, more)
  evict_loop (suc batch) s weights_to_evict evicted more = elim (leb weights_to_evict evicted) [
    | true ↦ some (s, evicted, false)
    | false ↦ elim (peek_front s) [
      | none ↦ some (s, evicted, false)
      | some (kh, true, accessed) ↦ do
        s1 ← skip_updated_entry_ao s kh.key
        evict_loop batch s1 weights_to_evict evicted false
      | some (kh, false, none) ↦ do
        s1 ← skip_updated_entry_ao s kh.key
        evict_loop batch s1 weights_to_evict evicted false
      | some (kh, false, some ts) ↦ do
        (s1, removed) ← try_evict s kh.key size (accessed_at s ts)
        elim removed [
          | none ↦ evict_loop batch s1 weights_to_evict evicted false
          | some e ↦
              evict_loop batch s1 weights_to_evict
                (saturating_add_u64 evicted (info_of s e).policy_weight) more
        ]
    ]
  ]

  -- The end of both loops.
  abbrev pub note_more : State K V → Bool → State K V
  note_more s more = if more then record s { more_entries_to_evict = true } else s

  unfoldable pub evict_lru_entries : State K V → ℕ → ℕ → Option (State K V)
  unfolding evict_loop
  evict_lru_entries s batch_size weights_to_evict = do
    (s1, evicted, more) ← evict_loop batch_size s weights_to_evict 0 true
    some (note_more s1 more)

  unfoldable pub expire_loop : ℕ → State K V → Instant → Bool → Option (State K V × Bool)
  unfolding try_evict skip_updated_entry_ao cause_of
  expire_loop zero s now more = some (s, more)
  expire_loop (suc batch) s now more = elim (peek_front s) [
    | none ↦ some (s, false)
    | some (kh, true, accessed) ↦ do
      s1 ← skip_updated_entry_ao s kh.key
      expire_loop batch s1 now false
    | some (kh, false, none) ↦ do
      s1 ← skip_updated_entry_ao s kh.key
      expire_loop batch s1 now false
    | some (kh, false, some ts) ↦
        elim (cause_of (is_entry_expired_ao_or_invalid c.time_to_idle c.valid_after ts now)) [
          | none ↦ some (s, false)
          | some cause ↦ do
            (s1, removed) ←
                try_evict s kh.key cause
                  (λ e. is_expired_entry_ao c.time_to_idle c.valid_after (info_of s e) now)
            expire_loop batch s1 now (if is_some removed then more else false)
        ]
  ]

  unfoldable pub remove_expired_ao : State K V → ℕ → Instant → Option (State K V)
  unfolding expire_loop
  remove_expired_ao s batch_size now = do
    (s1, more) ← expire_loop batch_size s now true
    some (note_more s1 more)
