-- ===== src/Cache/Expiry.antt =====
-- src/sync/base_cache.rs: the free-standing functions that say whether an entry has expired.
use moka.Base.{
  ◌≤◌, ◌<◌, ◌≡◌, ◌↔◌, ◌⊎◌, Bool, true, false, ◌||◌, Option, none, some, ltb, leb, arith,
}
use moka.Time
use moka.Time.{Instant, Duration, max_nanos, saturating_duration_since}
use moka.EntryInfo.{EntryInfo, expiration_state, last_accessed, last_modified}

unfoldable pub is_expired_by_per_entry_ttl {ℓ} : {K : Type ℓ} → EntryInfo K → Instant → Bool
is_expired_by_per_entry_ttl info now = elim (expiration_state info).0 [
  | none ↦ false
  | some ts ↦ leb ts now
]

unfoldable pub is_invalid_entry : Option Instant → Instant → Bool
is_invalid_entry none ts = false
is_invalid_entry (some va) ts = ltb ts va

unfoldable pub is_expired_by_tti : Option Duration → Instant → Instant → Bool
is_expired_by_tti none accessed now = false
is_expired_by_tti (some tti) accessed now = leb (Time.saturating_add accessed tti) now

unfoldable pub is_expired_by_ttl : Option Duration → Instant → Instant → Bool
is_expired_by_ttl none modified now = false
is_expired_by_ttl (some ttl) modified now = leb (Time.saturating_add modified ttl) now

unfoldable pub is_expired_entry_ao {ℓ} :
    {K : Type ℓ} → Option Duration → Option Instant → EntryInfo K → Instant → Bool
unfolding is_invalid_entry is_expired_by_tti
is_expired_entry_ao tti va info now = elim (last_accessed info) [
  | none ↦ false
  | some ts ↦ is_invalid_entry va ts || is_expired_by_tti tti ts now
]

unfoldable pub is_expired_entry_wo {ℓ} :
    {K : Type ℓ} → Option Duration → Option Instant → EntryInfo K → Instant → Bool
unfolding is_invalid_entry is_expired_by_ttl
is_expired_entry_wo ttl va info now = elim (last_modified info) [
  | none ↦ false
  | some ts ↦ is_invalid_entry va ts || is_expired_by_ttl ttl ts now
]

unfoldable pub is_entry_expired_ao_or_invalid :
    Option Duration → Option Instant → Instant → Instant → Bool × Bool
unfolding is_invalid_entry is_expired_by_tti
is_entry_expired_ao_or_invalid tti va ts now =
    (is_expired_by_tti tti ts now, is_invalid_entry va ts)

unfoldable pub is_entry_expired_wo_or_invalid :
    Option Duration → Option Instant → Instant → Instant → Bool × Bool
unfolding is_invalid_entry is_expired_by_ttl
is_entry_expired_wo_or_invalid ttl va ts now =
    (is_expired_by_ttl ttl ts now, is_invalid_entry va ts)

-- The two ways in which an access time ends the life of an entry.
abbrev pub IsStale : Option Duration → Option Instant → Instant → Instant → Type 0
IsStale none none ts now = ⊥
IsStale none (some va) ts now = ts < va
IsStale (some d) none ts now = d ≤ saturating_duration_since now ts
IsStale (some d) (some va) ts now = (ts < va) ⊎ (d ≤ saturating_duration_since now ts)

module _ {ℓ} {K : Type ℓ} (info : EntryInfo K) (now : Instant) where
  -- An entry whose last access is known and not after the present time, which is below the
  -- largest instant, is expired in the access order exactly when that access lies before the
  -- time of the last `invalidate_all` or the entry has been idle for the time to idle. An
  -- access at the very time of `invalidate_all` is not before it.
  pub is_expired_entry_ao_iff :
      (tti : Option Duration) (va : Option Instant) (ts : Instant)
      → last_accessed info ≡ some ts
      → ts ≤ now
      → now < max_nanos
      → (is_expired_entry_ao tti va info now ≡ true) ↔ IsStale tti va ts now
  unfolding is_expired_entry_ao
  is_expired_entry_ao_iff none none ts e h b = ground arith
  is_expired_entry_ao_iff none (some va) ts e h b = ground arith
  is_expired_entry_ao_iff (some d) none ts e h b = ground arith
  is_expired_entry_ao_iff (some d) (some va) ts e h b = ground arith

  -- The same in the write order, with the last modification and the time to live.
  pub is_expired_entry_wo_iff :
      (ttl : Option Duration) (va : Option Instant) (ts : Instant)
      → last_modified info ≡ some ts
      → ts ≤ now
      → now < max_nanos
      → (is_expired_entry_wo ttl va info now ≡ true) ↔ IsStale ttl va ts now
  unfolding is_expired_entry_wo
  is_expired_entry_wo_iff none none ts e h b = ground arith
  is_expired_entry_wo_iff none (some va) ts e h b = ground arith
  is_expired_entry_wo_iff (some d) none ts e h b = ground arith
  is_expired_entry_wo_iff (some d) (some va) ts e h b = ground arith
