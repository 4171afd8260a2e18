-- ===== src/Cache/Invariant/Sweep.antt =====
-- src/sync/base_cache.rs: the invariant over `evict_expired_entries_using_deqs`.
use moka.Base.{
  ℕ, zero, suc, ◌≡◌, refl, ap, ◌∙◌, inl, inr, Bool, true, false, Option, none, some, Bool-cases,
  ◌==◌, if◌then◌else◌, ◌>>=◌,
}
use moka.Concurrent.{ValueEntry}
use moka.Cache.{State, Config, RemovalCause, record_eviction}
use moka.Cache.Map.{taken_out}
use moka.EntryInfo.{KeyHash}
use moka.Time.{Instant}
use moka.Cache.{info_of}
use moka.Cache.Map.{remove_cases}
use moka.Cache.Policy.{handle_remove}
use moka.Cache.Invariant.{IsConsistent, get-IsPaired, Keeps}
use moka.Cache.Invariant.Removal.{handle_remove-Removes}
use moka.Cache.{is_some}
use moka.Cache.Evict.{Front, cause_of, skip_updated_entry_wo, note_more}
use moka.Cache.Invariant.Victims.{evicted-IsConsistent}
use moka.Cache.Invariant.Evict.{skip_updated_entry_wo-Keeps, noted-IsConsistent, Expires}
use moka.Base.{◌||◌}
use moka.Cache.{is_write_order_queue_enabled}
use moka.Cache.Expiry.{is_entry_expired_wo_or_invalid, is_expired_entry_wo}
use moka.Cache.WriteOrder.{
  peek_front_wo, try_expire_wo, expire_wo_loop, remove_expired_wo, remove_expired_empty,
  remove_expired_regions, evict_expired_entries_using_deqs,
}
use moka.Cache.Invariant.ExpireLoop.{remove_expired_ao-IsConsistent}

module _ {K : Type 0} (V : Type 0) (P : K → ValueEntry V → Type 0) (dec : Discrete K)
    (c : Config) where
  ExpireWoEnds : ℕ → Type 0
  ExpireWoEnds batch =
      (s : State K V) (now : Instant) (more : Bool)
      → IsConsistent P s
      → Expires P (expire_wo_loop dec c batch s now more)

module _ {K V : Type 0} (dec : Discrete K) (c : Config) where
  abbrev expire_wo_after :
      K
      → RemovalCause
      → State K V × Option (ValueEntry V)
      → Option (State K V × Option (ValueEntry V))
  expire_wo_after key cause (s, none) = do s2 ← skip_updated_entry_wo dec c s key; some (s2, none)
  expire_wo_after key cause (s, some e) = do
    s2 ← handle_remove (record_eviction c s key e cause) e none
    some (s2, some e)

module _ {K V : Type 0} {P : K → ValueEntry V → Type 0} (dec : Discrete K) (c : Config) where
  try_expire_wo-Keeps :
      (s : State K V) (key : K) (cause : RemovalCause) (now : Instant)
      → IsConsistent P s
      → (s' : State K V) × (removed : Option (ValueEntry V)) × (try_expire_wo dec c s key cause now
          ≡ some (s', removed))
        × IsConsistent P s'
  unfolding try_expire_wo
  try_expire_wo-Keeps s key cause now h =
      elim (remove_cases dec s key
        (λ e. is_expired_entry_wo c.time_to_live c.valid_after (info_of s e) now)) [
          | inl k ↦
              let (s2, k2, h2) = skip_updated_entry_wo-Keeps dec c s key h in
              (s2, none, ap (expire_wo_after dec c key cause) k ∙ rw k2 refl, h2)
          | inr (e, g, k) ↦
              let s1 = record_eviction c (taken_out dec s key e) key e cause in
              let (s2, k2, h2, d) =
                handle_remove-Removes s1 e (evicted-IsConsistent dec c s key e cause h)
                  (get-IsPaired dec s key e h g) none in
              (s2, some e, ap (expire_wo_after dec c key cause) k ∙ rw k2 refl, h2)
        ]

  module _ (batch : ℕ) (ih : ExpireWoEnds V P dec c batch) (s : State K V) (now : Instant)
      (more : Bool) (h : IsConsistent P s) where
    abbrev expire_for : KeyHash K → Option RemovalCause → Option (State K V × Bool)
    expire_for kh none = some (s, false)
    expire_for kh (some cause) = do
      (s1, removed) ← try_expire_wo dec c s kh.key cause now
      expire_wo_loop dec c batch s1 now (if is_some removed then more else false)

    expire_for-Expires :
        (kh : KeyHash K) (cause : Option RemovalCause) → Expires P (expire_for kh cause)
    unfolding ExpireWoEnds
    expire_for-Expires kh none = (s, false, refl, h)
    expire_for-Expires kh (some cause) =
        let (s1, removed, k1, h1) = try_expire_wo-Keeps s kh.key cause now h in
        let (s2, a, k2, h2) = ih s1 now (if is_some removed then more else false) h1 in
        (s2, a, rw k1 k2, h2)

    expire_skip :
        (key : K)
        → Expires P
            (do s1 ← skip_updated_entry_wo dec c s key; expire_wo_loop dec c batch s1 now false)
    unfolding ExpireWoEnds
    expire_skip key =
        let (s1, k1, h1) = skip_updated_entry_wo-Keeps dec c s key h in
        let (s2, a, k2, h2) = ih s1 now false h1 in (s2, a, rw k1 k2, h2)

    abbrev expire_front : Option (Front K) → Option (State K V × Bool)
    expire_front none = some (s, false)
    expire_front (some (kh, true, accessed)) = do
      s1 ← skip_updated_entry_wo dec c s kh.key
      expire_wo_loop dec c batch s1 now false
    expire_front (some (kh, false, none)) = do
      s1 ← skip_updated_entry_wo dec c s kh.key
      expire_wo_loop dec c batch s1 now false
    expire_front (some (kh, false, some ts)) =
        expire_for kh
          (cause_of (is_entry_expired_wo_or_invalid c.time_to_live c.valid_after ts now))

    expire_front-Expires : (front : Option (Front K)) → Expires P (expire_front front)
    expire_front-Expires none = (s, false, refl, h)
    expire_front-Expires (some (kh, true, accessed)) = expire_skip kh.key
    expire_front-Expires (some (kh, false, none)) = expire_skip kh.key
    expire_front-Expires (some (kh, false, some ts)) =
        expire_for-Expires kh
          (cause_of (is_entry_expired_wo_or_invalid c.time_to_live c.valid_after ts now))

    expire_step : Expires P (expire_wo_loop dec c (suc batch) s now more)
    unfolding expire_wo_loop
    expire_step = expire_front-Expires (peek_front_wo dec c s)

  expire_wo_loop-Expires :
      (batch : ℕ) (s : State K V) (now : Instant) (more : Bool)
      → IsConsistent P s
      → Expires P (expire_wo_loop dec c batch s now more)
  unfolding ExpireWoEnds expire_wo_loop
  expire_wo_loop-Expires zero s now more h = (s, more, refl, h)
  expire_wo_loop-Expires (suc batch) s now more h =
      expire_step batch (expire_wo_loop-Expires batch) s now more h

  remove_expired_wo-Keeps :
      (s : State K V) (batch_size : ℕ) (now : Instant)
      → IsConsistent P s
      → Keeps P (remove_expired_wo dec c s batch_size now)
  unfolding remove_expired_wo
  remove_expired_wo-Keeps s batch_size now h =
      let (s1, more, k, h1) = expire_wo_loop-Expires batch_size s now true h in
      (note_more dec c s1 more, rw k refl, noted-IsConsistent dec c s1 more h1)

  remove_expired_regions-Keeps :
      (s : State K V) (batch_size : ℕ) (now : Instant)
      → IsConsistent P s
      → Keeps P (remove_expired_regions dec c s batch_size now)
  unfolding remove_expired_regions
  remove_expired_regions-Keeps s batch_size now h =
      let h0 = noted-IsConsistent dec c s (batch_size == 0) h in
      let (s1, k, h1) =
        remove_expired_ao-IsConsistent dec c (remove_expired_empty dec c s batch_size) batch_size
          now h0 in
      (
        remove_expired_empty dec c s1 batch_size,
        rw k refl,
        noted-IsConsistent dec c s1 (batch_size == 0) h1,
      )

  write_order_swept :
      (s : State K V) (batch_size : ℕ) (now : Instant)
      → IsConsistent P s
      → Keeps P (
          if is_write_order_queue_enabled c
          then remove_expired_wo dec c s batch_size now
          else some s)
  write_order_swept s batch_size now h = elim (Bool-cases (is_write_order_queue_enabled c)) [
    | inl b ↦ rw b (remove_expired_wo-Keeps s batch_size now h)
    | inr b ↦ rw b (s, refl, h)
  ]

  access_order_swept :
      (s : State K V) (batch_size : ℕ) (now : Instant)
      → IsConsistent P s
      → Keeps P (
          if is_some c.time_to_idle || is_some c.valid_after
          then remove_expired_regions dec c s batch_size now
          else some s)
  access_order_swept s batch_size now h =
      elim (Bool-cases (is_some c.time_to_idle || is_some c.valid_after)) [
        | inl b ↦ rw b (remove_expired_regions-Keeps s batch_size now h)
        | inr b ↦ rw b (s, refl, h)
      ]

  -- The sweep for expired and invalidated entries, first in the write order and then in the
  -- access order, succeeds on a consistent state and leaves a consistent state.
  pub evict_expired_entries_using_deqs-IsConsistent :
      (s : State K V) (batch_size : ℕ) (now : Instant)
      → IsConsistent P s
      → (s' : State K V) × (evict_expired_entries_using_deqs dec c s batch_size now ≡ some s')
        × IsConsistent P s'
  unfolding evict_expired_entries_using_deqs
  evict_expired_entries_using_deqs-IsConsistent s batch_size now h =
      let (s1, k1, h1) = write_order_swept s batch_size now h in
      let (s2, k2, h2) = access_order_swept s1 batch_size now h1 in (s2, rw k1 k2, h2)
