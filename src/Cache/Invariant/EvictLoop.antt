-- ===== src/Cache/Invariant/EvictLoop.antt =====
-- src/sync/base_cache.rs: the invariant over `evict_lru_entries`.
use moka.Base.{
  ℕ, zero, suc, ◌≡◌, refl, ap, ◌∙◌, inl, inr, Bool, true, false, Option, none, some, Bool-cases,
  leb, ◌>>=◌,
}
use moka.Concurrent.{ValueEntry}
use moka.Cache.{State, Config}
use moka.Cache.{info_of, size}
use moka.Cache.Invariant.{IsConsistent}
use moka.Base.Word.{saturating_add_u64}
use moka.Cache.Evict.{
  Front, peek_front, skip_updated_entry_ao, try_evict, accessed_at, evict_loop, note_more,
  evict_lru_entries,
}
use moka.Cache.Invariant.Evict.{
  skip_updated_entry_ao-Keeps, try_evict-Keeps, noted-IsConsistent, Evicts,
}

module _ {K : Type 0} (V : Type 0) (P : K → ValueEntry V → Type 0) (dec : Discrete K)
    (c : Config) where
  EvictEnds : ℕ → Type 0
  EvictEnds batch =
      (s : State K V) (weights evicted : ℕ) (more : Bool)
      → IsConsistent P s
      → Evicts P (evict_loop dec c batch s weights evicted more)

module _ {K V : Type 0} {P : K → ValueEntry V → Type 0} (dec : Discrete K) (c : Config) where
  -- One turn of the loop, for what it finds at the front.
  module _ (batch : ℕ) (ih : EvictEnds V P dec c batch) (s : State K V) (weights evicted : ℕ)
      (more : Bool) (h : IsConsistent P s) where
    abbrev evict_next : State K V → Option (ValueEntry V) → Option (State K V × ℕ × Bool)
    evict_next s1 none = evict_loop dec c batch s1 weights evicted false
    evict_next s1 (some e) =
        evict_loop dec c batch s1 weights (saturating_add_u64 evicted (info_of s e).policy_weight)
          more

    evict_next-Evicts :
        (s1 : State K V) (removed : Option (ValueEntry V))
        → IsConsistent P s1
        → Evicts P (evict_next s1 removed)
    unfolding EvictEnds
    evict_next-Evicts s1 none h1 = ih s1 weights evicted false h1
    evict_next-Evicts s1 (some e) h1 =
        ih s1 weights (saturating_add_u64 evicted (info_of s e).policy_weight) more h1

    abbrev evict_front : Option (Front K) → Option (State K V × ℕ × Bool)
    evict_front none = some (s, evicted, false)
    evict_front (some (kh, true, accessed)) = do
      s1 ← skip_updated_entry_ao dec c s kh.key
      evict_loop dec c batch s1 weights evicted false
    evict_front (some (kh, false, none)) = do
      s1 ← skip_updated_entry_ao dec c s kh.key
      evict_loop dec c batch s1 weights evicted false
    evict_front (some (kh, false, some ts)) = do
      (s1, removed) ← try_evict dec c s kh.key size (accessed_at dec c s ts)
      evict_next s1 removed

    evict_skip :
        (key : K)
        → Evicts P (do
          s1 ← skip_updated_entry_ao dec c s key
          evict_loop dec c batch s1 weights evicted false)
    unfolding EvictEnds
    evict_skip key =
        let (s1, k1, h1) = skip_updated_entry_ao-Keeps dec c s key h in
        let (s2, n, m, k2, h2) = ih s1 weights evicted false h1 in (s2, n, m, rw k1 k2, h2)

    evict_front-Evicts : (front : Option (Front K)) → Evicts P (evict_front front)
    evict_front-Evicts none = (s, evicted, false, refl, h)
    evict_front-Evicts (some (kh, true, accessed)) = evict_skip kh.key
    evict_front-Evicts (some (kh, false, none)) = evict_skip kh.key
    evict_front-Evicts (some (kh, false, some ts)) =
        let (s1, removed, k1, h1) =
          try_evict-Keeps dec c s kh.key size (accessed_at dec c s ts) h in
        let (s2, n, m, k2, h2) = evict_next-Evicts s1 removed h1 in (s2, n, m, rw k1 k2, h2)

    abbrev turn : Bool → Option (State K V × ℕ × Bool)
    turn true = some (s, evicted, false)
    turn false = evict_front (peek_front dec c s)

    evict_step : Evicts P (evict_loop dec c (suc batch) s weights evicted more)
    unfolding evict_loop
    evict_step = elim (Bool-cases (leb weights evicted)) [
      | inl b ↦ (s, evicted, false, ap turn b, h)
      | inr b ↦
          let (s', n, m, k, h') = evict_front-Evicts (peek_front dec c s) in
          (s', n, m, ap turn b ∙ k, h')
    ]

  evict_loop-Evicts :
      (batch : ℕ) (s : State K V) (weights evicted : ℕ) (more : Bool)
      → IsConsistent P s
      → Evicts P (evict_loop dec c batch s weights evicted more)
  unfolding EvictEnds evict_loop
  evict_loop-Evicts zero s w evicted more h = (s, evicted, more, refl, h)
  evict_loop-Evicts (suc batch) s w evicted more h =
      evict_step batch (evict_loop-Evicts batch) s w evicted more h

  -- The eviction for size of a consistent state succeeds and leaves a consistent state, for every
  -- batch size and weight.
  pub evict_lru_entries-IsConsistent :
      (s : State K V) (batch_size weights : ℕ)
      → IsConsistent P s
      → (s' : State K V) × (evict_lru_entries dec c s batch_size weights ≡ some s')
        × IsConsistent P s'
  unfolding evict_lru_entries
  evict_lru_entries-IsConsistent s batch_size weights h =
      let (s1, evicted, more, k, h1) = evict_loop-Evicts batch_size s weights 0 true h in
      (note_more dec c s1 more, rw k refl, noted-IsConsistent dec c s1 more h1)
