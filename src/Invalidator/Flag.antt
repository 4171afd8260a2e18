-- ===== src/Invalidator/Flag.antt =====
-- src/sync/invalidator.rs: the flag that says whether there are predicates.
use moka.Base.{
  ℕ, zero, suc, ◌≡◌, refl, subst, List, [], ◌∷◌, Bool, true, false, not, Option, none, some, ◌>>=◌,
  leb, Bool-cases, inl, inr, if◌then◌else◌,
}
use moka.Time.{Instant}
use moka.Invalidator.{
  Predicate, Invalidator, new_invalidator, no_predicates, retain, is_applicable, keep_predicates,
  remove_predicates_registered_before, contains_id, register_loop, register_predicate,
  remove_predicates, remove_finished_predicates, max_retry, load_predicates,
}

-- The operations that change the registry. The end of a scan is that of `scan_and_invalidate`, which
-- loads the scan context first.
pub data RegistryOp (K V : Type 0) : Type 0 where
  register : (ℕ → ℕ) → (K → V → Bool) → Instant → RegistryOp K V
  expire_before : Instant → RegistryOp K V
  finish_scan : Bool → Option Instant → RegistryOp K V

module _ {K V : Type 0} where
  -- The flag is up exactly if there is no predicate.
  abbrev pub IsFlagged : Invalidator K V → Type 0
  IsFlagged v = v.is_empty ≡ no_predicates v.predicates

  abbrev pub run_registry_op : Invalidator K V → RegistryOp K V → Option (Invalidator K V)
  run_registry_op v (register uuids f at) = do (v1, i) ← register_predicate uuids v f at; some v1
  run_registry_op v (expire_before ts) = some (remove_predicates_registered_before v ts)
  run_registry_op v (finish_scan is_truncated newest) =
      remove_finished_predicates (load_predicates v) is_truncated newest

  abbrev pub run_registry_ops : Invalidator K V → List (RegistryOp K V) → Option (Invalidator K V)
  run_registry_ops v [] = some v
  run_registry_ops v (op ∷ ops) = do v1 ← run_registry_op v op; run_registry_ops v1 ops

  -- What the operation leaves, if it succeeds, is flagged.
  Flags : Option (Invalidator K V) → Type 0
  Flags none = Unit {0}
  Flags (some v) = IsFlagged v

  kept-IsFlagged :
      (v : Invalidator K V) (keeps : Predicate K V → Bool)
      → IsFlagged v
      → IsFlagged (keep_predicates v (retain keeps v.predicates))
  unfolding retain
  kept-IsFlagged v keeps h = go v.predicates h
    where
      go :
          (l : List (Predicate K V))
          → v.is_empty ≡ no_predicates l
          → (if no_predicates (retain keeps l) then true else v.is_empty)
            ≡ no_predicates (retain keeps l)
      go [] k = refl
      go (p ∷ l) k = elim (Bool-cases (no_predicates (retain keeps (p ∷ l)))) [
        | inl w ↦ rw w refl
        | inr w ↦ rw w k
      ]

  register_loop-IsFlagged :
      (tries n : ℕ) (uuids : ℕ → ℕ) (v : Invalidator K V) (f : K → V → Bool) (at : Instant)
      → Flags (do (v1, i) ← register_loop tries uuids n v f at; some v1)
  unfolding register_loop Flags
  register_loop-IsFlagged zero n uuids v f at = tt
  register_loop-IsFlagged (suc tries) n uuids v f at =
      elim (Bool-cases (contains_id (uuids n) v.predicates)) [
        | inl w ↦ rw w (register_loop-IsFlagged tries (suc n) uuids v f at)
        | inr w ↦ rw w refl
      ]

  finish-Flags :
      (v : Invalidator K V) (is_truncated : Bool) (newest : Option Instant)
      → IsFlagged v
      → Flags (remove_finished_predicates v is_truncated newest)
  unfolding remove_finished_predicates remove_predicates Flags
  finish-Flags v false newest h = kept-IsFlagged v (λ p. not (contains_id p.id v.scanning)) h
  finish-Flags v true none h = tt
  finish-Flags v true (some ts) h =
      kept-IsFlagged v
        (λ p. not (contains_id p.id (retain (λ p. not (is_applicable p ts)) v.scanning))) h

  load-IsFlagged : (v : Invalidator K V) → IsFlagged v → IsFlagged (load_predicates v)
  load-IsFlagged v h = elim (Bool-cases (no_predicates v.scanning)) [
    | inl w ↦ rw w h
    | inr w ↦ rw w h
  ]

  op-Flags :
      (v : Invalidator K V) (op : RegistryOp K V) → IsFlagged v → Flags (run_registry_op v op)
  unfolding register_predicate remove_predicates_registered_before Flags
  op-Flags v (register uuids f at) h = register_loop-IsFlagged max_retry 0 uuids v f at
  op-Flags v (expire_before ts) h = kept-IsFlagged v (λ p. not (leb p.registered_at ts)) h
  op-Flags v (finish_scan is_truncated newest) h =
      finish-Flags (load_predicates v) is_truncated newest (load-IsFlagged v h)

  runs-Flags :
      (v : Invalidator K V) (ops : List (RegistryOp K V))
      → IsFlagged v
      → Flags (run_registry_ops v ops)
  unfolding Flags
  runs-Flags v [] h = h
  runs-Flags v (op ∷ ops) h = go (run_registry_op v op) (op-Flags v op h) (λ v1. runs-Flags v1 ops)
    where
      go :
          (r : Option (Invalidator K V))
          → Flags r
          → ((v1 : Invalidator K V) → IsFlagged v1 → Flags (run_registry_ops v1 ops))
          → Flags (do v1 ← r; run_registry_ops v1 ops)
      go none f ih = tt
      go (some v1) f ih = ih v1 f

  -- After any registrations, expiries of predicates and ends of scans that succeed, where a
  -- scan first loads the registry if its context is empty, from a new invalidator on, the flag
  -- is up exactly when the registry has no predicate.
  pub run_registry_ops-IsFlagged :
      (ops : List (RegistryOp K V)) (v : Invalidator K V)
      → run_registry_ops new_invalidator ops ≡ some v
      → IsFlagged v
  unfolding Flags new_invalidator
  run_registry_ops-IsFlagged ops v k = subst Flags k (runs-Flags new_invalidator ops refl)
