-- ===== src/Cache/Admission/Sums.antt =====
-- src/sync/base_cache.rs: the sums that the loop of `admit` keeps are those of its victims.
use moka.Base.{
  ℕ, ◌+◌, ◌≡◌, refl, sym, ap, ◌∙◌, ◌≢◌, inl, inr, List, [], ◌∷◌, ◌++◌, false, Option, none, some,
  arith, Option-cases,
}
use moka.EntryInfo.{KeyHash, last_accessed, is_dirty}
use moka.Time.{Instant}
use moka.Concurrent.{Shared, ValueEntry}
use moka.Sketch.{FrequencySketch, frequency}
use moka.Cache.{get}
use moka.Cache.Admission.{EntrySizeAndFrequency, no_victims, add_victim, Victims, victim_weight}

module _ {K V : Type 0} (dec : Discrete K) (m : List (K × ValueEntry V)) (sh : Shared K)
    (skt : FrequencySketch) where
  -- The weight that the map has for a key, 0 for a missing one.
  unfoldable pub weight_of : K → ℕ
  weight_of k = elim (get dec k m) [ none ↦ 0 | some e ↦ (sh.infos e.info).policy_weight ]

  unfoldable pub total_weight : Victims K → ℕ
  total_weight [] = 0
  total_weight ((kh, la) ∷ keys) = weight_of kh.key + total_weight keys

  unfoldable pub total_freq : Victims K → ℕ
  total_freq [] = 0
  total_freq ((kh, la) ∷ keys) = frequency skt kh.hash + total_freq keys

  -- A victim is an info whose entry is clean, alive and in the map, with its last access.
  abbrev pub IsVictim : KeyHash K × Option Instant → Type 0
  IsVictim (kh, la) =
      (i : ℕ) × (e : ValueEntry V) × (kh ≡ (sh.infos i).key_hash)
      × (la ≡ last_accessed (sh.infos i))
      × (is_dirty (sh.infos i) ≡ false)
      × ((sh.infos i).is_retired ≡ false)
      × (get dec kh.key m ≡ some e)

  abbrev pub AllVictims : Victims K → Type 0
  AllVictims [] = Unit {0}
  AllVictims (key ∷ keys) = IsVictim key × AllVictims keys

  AllVictims-append :
      (keys : Victims K) (key : KeyHash K × Option Instant)
      → AllVictims keys
      → IsVictim key
      → AllVictims (keys ++ key ∷ [])
  AllVictims-append [] key h g = (g, tt)
  AllVictims-append (key' ∷ keys) key h g = (h.0, AllVictims-append keys key h.1 g)

  victim_weight-facts :
      (i w : ℕ)
      → victim_weight dec m sh i ≡ some w
      → (is_dirty (sh.infos i) ≡ false)
        × ((sh.infos i).is_retired ≡ false)
        × (get dec (sh.infos i).key_hash.key m ≢ none)
  unfolding victim_weight
  victim_weight-facts i w h = grind arith

  victim_weight-IsVictim :
      (i w : ℕ)
      → victim_weight dec m sh i ≡ some w
      → IsVictim ((sh.infos i).key_hash, last_accessed (sh.infos i))
  victim_weight-IsVictim i w h =
      let (clean, alive, here) = victim_weight-facts i w h in
      elim (Option-cases (get dec (sh.infos i).key_hash.key m)) [
        | inl absent ↦ absurd (here absent)
        | inr (e, found) ↦ (i, e, refl, refl, clean, alive, found)
      ]

  total_weight-append :
      (keys : Victims K) (kh : KeyHash K) (la : Option Instant)
      → total_weight (keys ++ (kh, la) ∷ []) ≡ total_weight keys + weight_of kh.key
  unfolding total_weight
  total_weight-append [] kh la = omega arith
  total_weight-append ((kh', la') ∷ keys) kh la = ground (arith, total_weight-append keys kh la)

  total_freq-append :
      (keys : Victims K) (kh : KeyHash K) (la : Option Instant)
      → total_freq (keys ++ (kh, la) ∷ []) ≡ total_freq keys + frequency skt kh.hash
  unfolding total_freq
  total_freq-append [] kh la = omega arith
  total_freq-append ((kh', la') ∷ keys) kh la = ground (arith, total_freq-append keys kh la)

  victim_weight-weight_of :
      (i w : ℕ) → victim_weight dec m sh i ≡ some w → weight_of (sh.infos i).key_hash.key ≡ w
  unfolding victim_weight weight_of
  victim_weight-weight_of i w h = grind arith

  -- The sums are those of the keys, which are victims.
  abbrev pub Sums : EntrySizeAndFrequency → Victims K → Type 0
  Sums v keys = (v.policy_weight ≡ total_weight keys) × (v.freq ≡ total_freq keys) × AllVictims keys

  -- The sums after one more victim.
  pub Sums-add_victim :
      (i weight : ℕ) (v : EntrySizeAndFrequency) (keys : Victims K)
      → victim_weight dec m sh i ≡ some weight
      → Sums v keys
      → Sums
          (add_victim v weight (frequency skt (sh.infos i).key_hash.hash))
          (keys ++ ((sh.infos i).key_hash, last_accessed (sh.infos i)) ∷ [])
  Sums-add_victim i weight v keys w (sw, sf, all) = (
    ap (λ x. x + weight) sw
        ∙ ap (λ x. total_weight keys + x) (sym (victim_weight-weight_of i weight w))
        ∙ sym (total_weight-append keys (sh.infos i).key_hash (last_accessed (sh.infos i))),
    ap (λ x. x + frequency skt (sh.infos i).key_hash.hash) sf
        ∙ sym (total_freq-append keys (sh.infos i).key_hash (last_accessed (sh.infos i))),
    AllVictims-append keys ((sh.infos i).key_hash, last_accessed (sh.infos i)) all
        (victim_weight-IsVictim i weight w),
  )

  pub Sums-none : Sums no_victims []
  unfolding total_weight total_freq
  Sums-none = (refl, refl, tt)
