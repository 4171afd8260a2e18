-- ===== src/Invalidator/Unmet.antt =====
-- src/sync/invalidator.rs: what it says that no predicate of a list meets an entry.
use moka.Base.{◌≤◌, ◌≡◌, ◌↔◌, refl, inl, inr, List, [], ◌∷◌, false, ◌&&◌, arith, leb, Bool-cases}
use moka.Time.{Instant}
use moka.Invalidator.{Predicate, do_apply_predicates}

module _ {K V : Type 0} where
  -- Each predicate that was registered at or after the time does not hold of the key and the value.
  abbrev pub IsUnmet : List (Predicate K V) → K → V → Instant → Type 0
  IsUnmet [] key value lm = Unit {0}
  IsUnmet (p ∷ l) key value lm =
      (lm ≤ p.registered_at → p.f key value ≡ false) × IsUnmet l key value lm

  pub do_apply_predicates_iff :
      (l : List (Predicate K V)) (key : K) (value : V) (lm : Instant)
      → (do_apply_predicates l key value lm ≡ false) ↔ IsUnmet l key value lm
  unfolding do_apply_predicates
  do_apply_predicates_iff [] key value lm = (λ h. tt, λ h. refl)
  do_apply_predicates_iff (p ∷ l) key value lm =
      let (to, from) = do_apply_predicates_iff l key value lm in
      elim (Bool-cases (leb lm p.registered_at && p.f key value)) [
        | inl w ↦ (λ h. absurd (ground (arith, h, w)), λ (a, b). absurd (ground (arith, a, w)))
        | inr w ↦ rw w (λ h. (λ b. ground (arith, b, w), to h), λ (a, b). from b)
      ]
