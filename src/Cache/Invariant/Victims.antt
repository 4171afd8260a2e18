-- ===== src/Cache/Invariant/Victims.antt =====
-- src/sync/base_cache.rs: the invariant over the removals that `handle_upsert` makes.
use moka.Base.{
  ℕ, ◌≡◌, refl, sym, ap, subst, ◌∙◌, inl, inr, [], ◌∷◌, false, Option, none, some, Bool-cases, ◌==◌,
}
use mathlib.Core.Logic.{ite}
use moka.Concurrent.{ValueEntry}
use moka.Cache.{State, Config, RemovalCause, record_eviction}
use moka.Cache.Map.{taken_out}
use moka.Cache.Policy.{store_policy_gen}
use moka.EntryInfo.{KeyHash, last_accessed}
use moka.Time.{Instant}
use moka.Queue.{Queue, move_front_to_back}
use moka.Cache.{size}
use moka.Cache.Map.{remove_cases}
use moka.Cache.Policy.{handle_remove}
use moka.Cache.Linked.Move.{Moved, Moved-refl, Moved-move_front_to_back}
use moka.Cache.Invariant.{
  IsConsistent, Harmless, Harmless-trans, IsConsistent-Harmless, store_policy_gen-Harmless,
  record_eviction-Harmless, taken_out-Harmless, get-IsPaired, Removes, AdmitsNone,
}
use moka.Cache.Invariant.Removal.{handle_remove-Removes, AdmitsNone-trans, AdmitsNone-Harmless}
use moka.Cache.Invariant.Moves.{with_deques-IsConsistent}
use moka.Queue.Laws.{Distinct}
use moka.Cache.Handle.{
  same_instant, is_candidate, reject_oversized, reject, skip_victim, remove_victim, remove_victims,
}
use moka.Cache.Admission.{Victims}

module _ {K V : Type 0} (dec : Discrete K) (c : Config) where
  -- An entry was taken out of the map, and its eviction recorded.
  evicted-Harmless :
      (s : State K V) (k : K) (e : ValueEntry V) (cause : RemovalCause)
      → Harmless s (record_eviction c (taken_out dec s k e) k e cause)
  evicted-Harmless s k e cause =
      Harmless-trans s (taken_out dec s k e) (record_eviction c (taken_out dec s k e) k e cause)
        (taken_out-Harmless dec s k e) (record_eviction-Harmless c (taken_out dec s k e) k e cause)

  pub evicted-AdmitsNone :
      (s : State K V) (k : K) (e : ValueEntry V) (cause : RemovalCause)
      → AdmitsNone s (record_eviction c (taken_out dec s k e) k e cause)
  evicted-AdmitsNone s k e cause =
      AdmitsNone-Harmless s (record_eviction c (taken_out dec s k e) k e cause)
        (evicted-Harmless s k e cause)

  -- What each operation does with the end of `cht_remove_if_and_retire`.
  abbrev oversized_after :
      KeyHash K → ValueEntry V → ℕ → State K V × Option (ValueEntry V) → State K V
  oversized_after kh e gen (s, none) = store_policy_gen s e (some gen)
  oversized_after kh e gen (s, some v) =
      store_policy_gen (record_eviction c s kh.key v size) e (some gen)

  abbrev reject_after : KeyHash K → ℕ → State K V × Option (ValueEntry V) → State K V
  reject_after kh gen (s, none) = s
  reject_after kh gen (s, some v) =
      record_eviction c (store_policy_gen s v (some gen)) kh.key v size

  abbrev victim_after : KeyHash K → State K V × Option (ValueEntry V) → Option (State K V)
  victim_after kh (s, none) = some (skip_victim dec c s kh)
  victim_after kh (s, some v) = handle_remove (record_eviction c s kh.key v size) v none

  -- The two ends of `skip_victim`.
  skip_cases :
      (s : State K V) (kh : KeyHash K)
      → Distinct s.deques.probation
      → (q : Queue ℕ) × (skip_victim dec c s kh
          ≡ record s { deques = record s.deques { probation = q } })
        × Moved s.deques.probation q
  unfolding skip_victim
  skip_cases s kh d = go s.deques.probation refl
    where
      go :
          (q : Queue ℕ)
          → s.deques.probation ≡ q
          → (q' : Queue ℕ) × (skip_victim dec c s kh
              ≡ record s { deques = record s.deques { probation = q' } })
            × Moved s.deques.probation q'
      go [] k = (
        [],
        rw (k, skip_victim) (ap (λ x. record s { deques = record s.deques { probation = x } }) k),
        rw k (Moved-refl [] (subst Distinct k d)),
      )
      go ((a, i) ∷ q) k =
          elim (Bool-cases (
            ite (dec (s.shared.infos i).key_hash.key kh.key)
              ((s.shared.infos i).key_hash.hash == kh.hash) false)) [
                | inl b ↦ (
                  move_front_to_back ((a, i) ∷ q),
                  rw (k, b, skip_victim) refl,
                  rw k (Moved-move_front_to_back ((a, i) ∷ q) (subst Distinct k d)),
                )
                | inr b ↦ (
                  s.deques.probation,
                  rw (k, b, skip_victim)
                      (ap (λ x. record s { deques = record s.deques { probation = x } }) k),
                  Moved-refl s.deques.probation d,
                )
              ]

module _ {K V : Type 0} {P : K → ValueEntry V → Type 0} (dec : Discrete K) (c : Config) where
  pub evicted-IsConsistent :
      (s : State K V) (k : K) (e : ValueEntry V) (cause : RemovalCause)
      → IsConsistent P s
      → IsConsistent P (record_eviction c (taken_out dec s k e) k e cause)
  evicted-IsConsistent s k e cause h =
      IsConsistent-Harmless s (record_eviction c (taken_out dec s k e) k e cause)
        (evicted-Harmless dec c s k e cause) h

  pub stored-IsConsistent :
      (s : State K V) (e : ValueEntry V) (gen : Option ℕ)
      → IsConsistent P s
      → IsConsistent P (store_policy_gen s e gen)
  stored-IsConsistent s e gen h =
      IsConsistent-Harmless s (store_policy_gen s e gen) (store_policy_gen-Harmless s e gen) h

  pub reject_oversized-IsConsistent :
      (s : State K V) (kh : KeyHash K) (e : ValueEntry V) (gen : ℕ)
      → IsConsistent P s
      → IsConsistent P (reject_oversized dec c s kh e gen)
  unfolding reject_oversized
  reject_oversized-IsConsistent s kh e gen h =
      elim (remove_cases dec s kh.key (is_candidate dec c s e gen)) [
        | inl k ↦
            subst (λ r. IsConsistent P (oversized_after dec c kh e gen r)) (sym k)
              (stored-IsConsistent s e (some gen) h)
        | inr (v, g, k) ↦
            subst (λ r. IsConsistent P (oversized_after dec c kh e gen r)) (sym k)
              (stored-IsConsistent (record_eviction c (taken_out dec s kh.key v) kh.key v size) e
                (some gen) (evicted-IsConsistent s kh.key v size h))
      ]

  pub reject-IsConsistent :
      (s : State K V) (kh : KeyHash K) (e : ValueEntry V) (gen : ℕ)
      → IsConsistent P s
      → IsConsistent P (reject dec c s kh e gen)
  unfolding reject
  reject-IsConsistent s kh e gen h = elim (remove_cases dec s kh.key (is_candidate dec c s e gen)) [
    | inl k ↦ subst (λ r. IsConsistent P (reject_after dec c kh gen r)) (sym k) h
    | inr (v, g, k) ↦
        let s1 = taken_out dec s kh.key v in
        let s2 = store_policy_gen s1 v (some gen) in
        subst (λ r. IsConsistent P (reject_after dec c kh gen r)) (sym k)
          (IsConsistent-Harmless s2 (record_eviction c s2 kh.key v size)
            (record_eviction-Harmless c s2 kh.key v size)
            (stored-IsConsistent s1 v (some gen)
              (IsConsistent-Harmless s s1 (taken_out-Harmless dec s kh.key v) h)))
  ]

  skip_victim-IsConsistent :
      (s : State K V) (kh : KeyHash K)
      → IsConsistent P s
      → IsConsistent P (skip_victim dec c s kh) × AdmitsNone s (skip_victim dec c s kh)
  skip_victim-IsConsistent s kh h =
      let (q, k, m) = skip_cases dec c s kh h.links.ao_distinct in
      rw k (
        with_deques-IsConsistent s h q s.deques.write_order m
            (Moved-refl s.deques.write_order h.links.wo_distinct),
        λ i n. n,
      )

  remove_victim-Removes :
      (s : State K V) (victim : KeyHash K × Option Instant)
      → IsConsistent P s
      → Removes P s (remove_victim dec c s victim)
  unfolding remove_victim
  remove_victim-Removes s (kh, la) h =
      elim (remove_cases dec s kh.key
        (λ v. same_instant (last_accessed (s.shared.infos v.info)) la)) [
          | inl k ↦
              let (h', d) = skip_victim-IsConsistent s kh h in
              (skip_victim dec c s kh, ap (victim_after dec c kh) k, h', d)
          | inr (v, g, k) ↦
              let s1 = record_eviction c (taken_out dec s kh.key v) kh.key v size in
              let (s2, k2, h2, d) =
                handle_remove-Removes s1 v (evicted-IsConsistent s kh.key v size h)
                  (get-IsPaired dec s kh.key v h g) none in
              (
                s2,
                ap (victim_after dec c kh) k ∙ k2,
                h2,
                AdmitsNone-trans s s1 s2 (evicted-AdmitsNone dec c s kh.key v size) d,
              )
        ]

  -- Whatever the victims are, their removal succeeds and admits no entry.
  pub remove_victims-Removes :
      (s : State K V) (victims : Victims K)
      → IsConsistent P s
      → Removes P s (remove_victims dec c s victims)
  unfolding remove_victims
  remove_victims-Removes s [] h = (s, refl, h, λ i n. n)
  remove_victims-Removes s (victim ∷ victims) h =
      let (s1, k1, h1, d1) = remove_victim-Removes s victim h in
      let (s2, k2, h2, d2) = remove_victims-Removes s1 victims h1 in
      (s2, rw k1 k2, h2, AdmitsNone-trans s s1 s2 d1 d2)
