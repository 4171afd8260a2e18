-- ===== src/Invalidator.antt =====
-- src/sync/invalidator.rs: the registry of the predicates of `invalidate_entries_if`, and the scan that
-- applies them to entries. The registry, a hash table, is the list of its predicates; an id, a UUID in
-- text, is a number, and `uuids` gives the ids that the generator yields. A closure is a function.
pub mod Flag
pub mod Scan
pub mod Unmet
pub mod Keeps
use moka.Base.{
  ℕ, zero, suc, List, [], ◌∷◌, Bool, true, false, not, ◌&&◌, ◌||◌, Option, none, some, ◌>>=◌, leb,
  ◌==◌, if◌then◌else◌,
}
use moka.Time.{Instant}
use moka.EntryInfo.{last_modified}
use moka.Concurrent.{ValueEntry}
use moka.Cache.{State, Config, RemovalCause, explicit, info_of, get, cht_remove_if_and_retire}
use moka.Cache.Policy.{handle_remove}

pub record KeyDateLite (K : Type 0) : Type 0 where
  pub key : K
  pub timestamp : Instant

pub record Predicate (K V : Type 0) : Type 0 where
  pub id : ℕ
  pub f : K → V → Bool
  pub registered_at : Instant

pub record Invalidator (K V : Type 0) : Type 0 where
  pub predicates : List (Predicate K V)
  pub is_empty : Bool
  -- The predicates of the scan context.
  pub scanning : List (Predicate K V)

abbrev pub max_retry : ℕ
max_retry = 1_000

abbrev pub no_predicates {ℓ} : {A : Type ℓ} → List A → Bool
no_predicates [] = true
no_predicates (a ∷ l) = false

-- Those of a list that pass a test.
unfoldable pub retain {ℓ} : {A : Type ℓ} → (A → Bool) → List A → List A
retain keeps [] = []
retain keeps (a ∷ l) = if keeps a then a ∷ retain keeps l else retain keeps l

unfoldable pub newest_timestamp : {K : Type 0} → List (KeyDateLite K) → Option Instant
newest_timestamp [] = none
newest_timestamp (candidate ∷ []) = some candidate.timestamp
newest_timestamp (candidate ∷ next ∷ candidates) = newest_timestamp (next ∷ candidates)

module _ {K V : Type 0} where
  unfoldable pub new_invalidator : Invalidator K V
  new_invalidator = record { predicates = []; is_empty = true; scanning = [] }

  abbrev pub is_applicable : Predicate K V → Instant → Bool
  is_applicable p last_modified = leb last_modified p.registered_at

  -- The registry after a removal.
  abbrev pub keep_predicates : Invalidator K V → List (Predicate K V) → Invalidator K V
  keep_predicates v left = record v {
    predicates = left;
    is_empty = if no_predicates left then true else v.is_empty;
  }

  unfoldable pub remove_predicates_registered_before : Invalidator K V → Instant → Invalidator K V
  unfolding retain
  remove_predicates_registered_before v ts =
      keep_predicates v (retain (λ p. not (leb p.registered_at ts)) v.predicates)

  unfoldable pub contains_id : ℕ → List (Predicate K V) → Bool
  contains_id i [] = false
  contains_id i (p ∷ l) = p.id == i || contains_id i l

  -- The tries that are left, and the number of the next id; `none` is the panic.
  unfoldable pub register_loop :
      ℕ → (ℕ → ℕ) → ℕ → Invalidator K V → (K → V → Bool) → Instant → Option (Invalidator K V × ℕ)
  register_loop zero uuids n v f registered_at = none
  register_loop (suc tries) uuids n v f registered_at =
      let rest = register_loop tries uuids (suc n) v f registered_at in
      if contains_id (uuids n) v.predicates
      then rest
      else some (
        record v {
          predicates = record { id = uuids n; f = f; registered_at = registered_at } ∷ v.predicates;
          is_empty = false;
        },
        uuids n,
      )

  unfoldable pub register_predicate :
      (ℕ → ℕ) → Invalidator K V → (K → V → Bool) → Instant → Option (Invalidator K V × ℕ)
  unfolding register_loop
  register_predicate uuids v f registered_at = register_loop max_retry uuids 0 v f registered_at

  unfoldable pub do_apply_predicates : List (Predicate K V) → K → V → Instant → Bool
  do_apply_predicates [] key value ts = false
  do_apply_predicates (p ∷ l) key value ts =
      if is_applicable p ts && p.f key value then true else do_apply_predicates l key value ts

  unfoldable pub apply_predicates : Invalidator K V → State K V → K → ValueEntry V → Bool
  unfolding do_apply_predicates
  apply_predicates v s key e = if v.is_empty then false else elim (last_modified (info_of s e)) [
    | none ↦ false
    | some ts ↦ do_apply_predicates v.predicates key e.value ts
  ]

  unfoldable pub remove_predicates : Invalidator K V → List (Predicate K V) → Invalidator K V
  unfolding retain contains_id
  remove_predicates v finished =
      keep_predicates v (retain (λ p. not (contains_id p.id finished)) v.predicates)

  -- The start of `scan_and_invalidate`.
  abbrev pub load_predicates : Invalidator K V → Invalidator K V
  load_predicates v = if no_predicates v.scanning then record v { scanning = v.predicates } else v

  -- `none` is the `unreachable!`.
  unfoldable pub remove_finished_predicates :
      Invalidator K V → Bool → Option Instant → Option (Invalidator K V)
  unfolding remove_predicates retain
  remove_finished_predicates v false newest =
      some (record (remove_predicates v v.scanning) { scanning = [] })
  remove_finished_predicates v true none = none
  remove_finished_predicates v true (some ts) =
      some (record (remove_predicates v (retain (λ p. not (is_applicable p ts)) v.scanning)) {
        scanning = retain (λ p. is_applicable p ts) v.scanning;
      })

  abbrev pub is_modified_at : State K V → Instant → ValueEntry V → Bool
  is_modified_at s ts e = elim (last_modified (info_of s e)) [ none ↦ false | some lm ↦ lm == ts ]

  -- What the listener is told of an entry, if there was one.
  abbrev pub notify_single_removal : Config → State K V → K → Option (ValueEntry V) → State K V
  notify_single_removal c s key none = s
  notify_single_removal c s key (some e) =
      if c.has_notifier then record s { notified = (key, e.value, explicit) ∷ s.notified } else s

  module _ (dec : Discrete K) (c : Config) where
    unfoldable pub apply : List (Predicate K V) → State K V → K → Instant → Bool
    unfolding do_apply_predicates
    apply predicates s key ts = elim (get dec key s.cache) [
      | none ↦ false
      | some e ↦
          if is_modified_at s ts e then do_apply_predicates predicates key e.value ts else false
    ]

    unfoldable pub invalidate : State K V → K → Instant → State K V × Option (ValueEntry V)
    invalidate s key ts =
        let (s1, removed) = cht_remove_if_and_retire dec s key (is_modified_at s ts) in
        (notify_single_removal c s1 key removed, removed)

    abbrev pub add_invalidated : Option (ValueEntry V) → List (ValueEntry V) → List (ValueEntry V)
    add_invalidated none es = es
    add_invalidated (some e) es = e ∷ es

    -- The loop over the candidates: the state and the entries that were invalidated.
    unfoldable pub scan :
        List (Predicate K V) → State K V → List (KeyDateLite K) → State K V × List (ValueEntry V)
    unfolding apply invalidate
    scan predicates s [] = (s, [])
    scan predicates s (candidate ∷ candidates) =
        let (s1, removed) =
          if apply predicates s candidate.key candidate.timestamp
          then invalidate s candidate.key candidate.timestamp
          else (s, none) in
        let (s2, invalidated) = scan predicates s1 candidates in
        (s2, add_invalidated removed invalidated)

    unfoldable pub scan_and_invalidate :
        Invalidator K V
        → State K V
        → List (KeyDateLite K)
        → Bool
        → Option (Invalidator K V × State K V × List (ValueEntry V) × Bool)
    unfolding scan newest_timestamp remove_finished_predicates
    scan_and_invalidate v s candidates is_truncated = do
      let (s1, invalidated) = scan (load_predicates v).scanning s candidates
      v1 ← remove_finished_predicates (load_predicates v) is_truncated (newest_timestamp candidates)
      some (v1, s1, invalidated, no_predicates v1.predicates)

    -- The loop of `invalidate_entries` over the entries that were invalidated.
    unfoldable pub remove_invalidated : State K V → List (ValueEntry V) → Option (State K V)
    remove_invalidated s [] = some s
    remove_invalidated s (e ∷ es) = do s1 ← handle_remove s e none; remove_invalidated s1 es
