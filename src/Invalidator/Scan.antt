-- ===== src/Invalidator/Scan.antt =====
-- src/sync/invalidator.rs: what the scan invalidates, and the policies over it.
use moka.Base.{
  ◌≡◌, refl, sym, subst, inl, inr, List, [], ◌∷◌, Option, none, some, arith, Bool-cases,
  if◌then◌else◌,
}
use moka.Time.{Instant}
use moka.Concurrent.{ValueEntry}
use moka.Cache.{State, Config, explicit}
use moka.Cache.Map.{taken_out, remove_cases}
use moka.Cache.Linked.{IsPaired}
use moka.Cache.Invariant.{
  IsConsistent, IsConsistent-Harmless, taken_out-Harmless, get-IsPaired, Keeps,
}
use moka.Cache.Invariant.Removal.{handle_remove-Removes}
use moka.Invalidator.{
  KeyDateLite, Predicate, apply, invalidate, scan, remove_invalidated, notify_single_removal,
  add_invalidated, is_modified_at,
}

module _ {V : Type 0} where
  abbrev pub ArePaired : List (ValueEntry V) → Type 0
  ArePaired [] = Unit {0}
  ArePaired (e ∷ es) = IsPaired e × ArePaired es

module _ {K V : Type 0} (dec : Discrete K) (c : Config) where
  -- The outcome of one candidate.
  abbrev Outcome : (K → ValueEntry V → Type 0) → State K V × Option (ValueEntry V) → Type 0
  Outcome P (s, none) = IsConsistent P s
  Outcome P (s, some e) = IsConsistent P s × IsPaired e

  abbrev told : K → State K V × Option (ValueEntry V) → State K V × Option (ValueEntry V)
  told key (s, removed) = (notify_single_removal c s key removed, removed)

  abbrev Scanned : (K → ValueEntry V → Type 0) → State K V × List (ValueEntry V) → Type 0
  Scanned P (s, es) = IsConsistent P s × ArePaired es

module _ {K V : Type 0} {P : K → ValueEntry V → Type 0} (dec : Discrete K) (c : Config) where
  notified-Harmless :
      (s : State K V) (key : K) (removed : Option (ValueEntry V))
      → IsConsistent P s
      → IsConsistent P (notify_single_removal c s key removed)
  notified-Harmless s key none h = h
  notified-Harmless s key (some e) h = elim (Bool-cases (c.has_notifier)) [
    | inr w ↦ rw w h
    | inl w ↦ rw w (
        IsConsistent-Harmless s (record s { notified = (key, e.value, explicit) ∷ s.notified })
          (record {
            same_links = record {
              same_deques = refl;
              same_count = refl;
              same_ao = λ i. refl;
              same_wo = λ i. refl;
              same_admitted = λ i. refl;
              later = omega arith;
            };
            same_wheel = refl;
            same_timers = λ i. refl;
            still_paired = λ Q x. x;
          })
          h)
  ]

  invalidate-Outcome :
      (s : State K V) (key : K) (ts : Instant)
      → IsConsistent P s
      → Outcome dec c P (invalidate dec c s key ts)
  unfolding invalidate
  invalidate-Outcome s key ts h = elim (remove_cases dec s key (is_modified_at s ts)) [
    | inl k ↦ subst (λ r. Outcome dec c P (told dec c key r)) (sym k) h
    | inr (e, g, k) ↦
        subst (λ r. Outcome dec c P (told dec c key r)) (sym k)
          (
            notified-Harmless (taken_out dec s key e) key (some e) (
                IsConsistent-Harmless s (taken_out dec s key e) (taken_out-Harmless dec s key e) h),
            get-IsPaired dec s key e h g,
          )
  ]

  candidate-Outcome :
      (predicates : List (Predicate K V)) (s : State K V) (key : K) (ts : Instant)
      → IsConsistent P s
      → Outcome dec c P
          (if apply dec c predicates s key ts then invalidate dec c s key ts else (s, none))
  candidate-Outcome predicates s key ts h = elim (Bool-cases (apply dec c predicates s key ts)) [
    | inl w ↦ rw w (invalidate-Outcome s key ts h)
    | inr w ↦ rw w h
  ]

  scan-Scanned :
      (predicates : List (Predicate K V)) (s : State K V) (candidates : List (KeyDateLite K))
      → IsConsistent P s
      → Scanned dec c P (scan dec c predicates s candidates)
  unfolding scan
  scan-Scanned predicates s [] h = (h, tt)
  scan-Scanned predicates s (candidate ∷ candidates) h =
      go
        (if apply dec c predicates s candidate.key candidate.timestamp
          then invalidate dec c s candidate.key candidate.timestamp
          else (s, none))
        (candidate-Outcome predicates s candidate.key candidate.timestamp h)
        (λ s1. scan-Scanned predicates s1 candidates)
    where
      go :
          (r : State K V × Option (ValueEntry V))
          → Outcome dec c P r
          → ((s1 : State K V)
              → IsConsistent P s1
              → Scanned dec c P (scan dec c predicates s1 candidates))
          → Scanned dec c P (
            (scan dec c predicates r.0 candidates).0,
            add_invalidated dec c r.1 (scan dec c predicates r.0 candidates).1,
          )
      go (s1, none) o ih = ih s1 o
      go (s1, some e) o ih = let (h1, p1) = ih s1 o.0 in (h1, (o.1, p1))

  remove_invalidated-Keeps :
      (s : State K V) (es : List (ValueEntry V))
      → IsConsistent P s
      → ArePaired es
      → Keeps P (remove_invalidated dec c s es)
  unfolding remove_invalidated
  remove_invalidated-Keeps s [] h p = (s, refl, h)
  remove_invalidated-Keeps s (e ∷ es) h p =
      let (s1, k1, h1, d1) = handle_remove-Removes s e h p.0 none in
      let (s2, k2, h2) = remove_invalidated-Keeps s1 es h1 p.1 in (s2, rw k1 k2, h2)

  -- From a consistent state the scan of any predicates over any candidates, followed by the
  -- removal of the invalidated entries from the policies, succeeds and leaves a consistent state.
  pub remove_invalidated-scan :
      (predicates : List (Predicate K V)) (s : State K V) (candidates : List (KeyDateLite K))
      → IsConsistent P s
      → let (s1, invalidated) = scan dec c predicates s candidates in
        (s' : State K V) × (remove_invalidated dec c s1 invalidated ≡ some s') × IsConsistent P s'
  remove_invalidated-scan predicates s candidates h =
      let (h1, p1) = scan-Scanned predicates s candidates h in
      remove_invalidated-Keeps (scan dec c predicates s candidates).0
        (scan dec c predicates s candidates).1 h1 p1
