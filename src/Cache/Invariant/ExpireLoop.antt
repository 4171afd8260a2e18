-- ===== src/Cache/Invariant/ExpireLoop.antt =====
-- src/sync/base_cache.rs: the invariant over `remove_expired_ao`.
use moka.Base.{ℕ, zero, suc, ◌≡◌, refl, Bool, true, false, Option, none, some, if◌then◌else◌, ◌>>=◌}
use moka.Concurrent.{ValueEntry}
use moka.Cache.{State, Config, RemovalCause}
use moka.EntryInfo.{KeyHash}
use moka.Time.{Instant}
use moka.Cache.{info_of}
use moka.Cache.Invariant.{IsConsistent}
use moka.Cache.{is_some}
use moka.Cache.Expiry.{is_entry_expired_ao_or_invalid, is_expired_entry_ao}
use moka.Cache.Evict.{
  Front, cause_of, peek_front, skip_updated_entry_ao, try_evict, note_more, expire_loop,
  remove_expired_ao,
}
use moka.Cache.Invariant.Evict.{
  skip_updated_entry_ao-Keeps, try_evict-Keeps, noted-IsConsistent, Expires,
}

module _ {K : Type 0} (V : Type 0) (P : K → ValueEntry V → Type 0) (dec : Discrete K)
    (c : Config) where
  ExpireEnds : ℕ → Type 0
  ExpireEnds batch =
      (s : State K V) (now : Instant) (more : Bool)
      → IsConsistent P s
      → Expires P (expire_loop dec c batch s now more)

module _ {K V : Type 0} {P : K → ValueEntry V → Type 0} (dec : Discrete K) (c : Config) where
  module _ (batch : ℕ) (ih : ExpireEnds V P dec c batch) (s : State K V) (now : Instant)
      (more : Bool) (h : IsConsistent P s) where
    abbrev is_expired : ValueEntry V → Bool
    is_expired e = is_expired_entry_ao c.time_to_idle c.valid_after (info_of s e) now

    abbrev expire_for : KeyHash K → Option RemovalCause → Option (State K V × Bool)
    expire_for kh none = some (s, false)
    expire_for kh (some cause) = do
      (s1, removed) ← try_evict dec c s kh.key cause is_expired
      expire_loop dec c batch s1 now (if is_some removed then more else false)

    expire_for-Expires :
        (kh : KeyHash K) (cause : Option RemovalCause) → Expires P (expire_for kh cause)
    unfolding ExpireEnds
    expire_for-Expires kh none = (s, false, refl, h)
    expire_for-Expires kh (some cause) =
        let (s1, removed, k1, h1) = try_evict-Keeps dec c s kh.key cause is_expired h in
        let (s2, a, k2, h2) = ih s1 now (if is_some removed then more else false) h1 in
        (s2, a, rw k1 k2, h2)

    expire_skip :
        (key : K)
        → Expires P
            (do s1 ← skip_updated_entry_ao dec c s key; expire_loop dec c batch s1 now false)
    unfolding ExpireEnds
    expire_skip key =
        let (s1, k1, h1) = skip_updated_entry_ao-Keeps dec c s key h in
        let (s2, a, k2, h2) = ih s1 now false h1 in (s2, a, rw k1 k2, h2)

    abbrev expire_front : Option (Front K) → Option (State K V × Bool)
    expire_front none = some (s, false)
    expire_front (some (kh, true, accessed)) = do
      s1 ← skip_updated_entry_ao dec c s kh.key
      expire_loop dec c batch s1 now false
    expire_front (some (kh, false, none)) = do
      s1 ← skip_updated_entry_ao dec c s kh.key
      expire_loop dec c batch s1 now false
    expire_front (some (kh, false, some ts)) =
        expire_for kh
          (cause_of (is_entry_expired_ao_or_invalid c.time_to_idle c.valid_after ts now))

    expire_front-Expires : (front : Option (Front K)) → Expires P (expire_front front)
    expire_front-Expires none = (s, false, refl, h)
    expire_front-Expires (some (kh, true, accessed)) = expire_skip kh.key
    expire_front-Expires (some (kh, false, none)) = expire_skip kh.key
    expire_front-Expires (some (kh, false, some ts)) =
        expire_for-Expires kh
          (cause_of (is_entry_expired_ao_or_invalid c.time_to_idle c.valid_after ts now))

    expire_step : Expires P (expire_loop dec c (suc batch) s now more)
    unfolding expire_loop
    expire_step = expire_front-Expires (peek_front dec c s)

  expire_loop-Expires :
      (batch : ℕ) (s : State K V) (now : Instant) (more : Bool)
      → IsConsistent P s
      → Expires P (expire_loop dec c batch s now more)
  unfolding ExpireEnds expire_loop
  expire_loop-Expires zero s now more h = (s, more, refl, h)
  expire_loop-Expires (suc batch) s now more h =
      expire_step batch (expire_loop-Expires batch) s now more h

  pub remove_expired_ao-IsConsistent :
      (s : State K V) (batch_size : ℕ) (now : Instant)
      → IsConsistent P s
      → (s' : State K V) × (remove_expired_ao dec c s batch_size now ≡ some s') × IsConsistent P s'
  unfolding remove_expired_ao
  remove_expired_ao-IsConsistent s batch_size now h =
      let (s1, more, k, h1) = expire_loop-Expires batch_size s now true h in
      (note_more dec c s1 more, rw k refl, noted-IsConsistent dec c s1 more h1)
