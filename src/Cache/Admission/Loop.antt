-- ===== src/Cache/Admission/Loop.antt =====
-- src/sync/base_cache.rs: the loop of `admit` ends within its fuel, and keeps the deque's nodes.
use moka.Base.{
  ℕ, zero, suc, ◌+◌, ◌*◌, ◌≤◌, ◌≡◌, refl, sym, subst, ◌∙◌, inl, inr, List, [], ◌∷◌, ◌++◌, true,
  false, ◌&&◌, Option, none, some, ltb, leb, if◌then◌else◌, length, arith, Bool-cases, Option-cases,
  ◌⊎◌,
}
use mathlib.Core.List.{append_assoc}
use moka.Base.{length-append}
use moka.EntryInfo.{last_accessed}
use moka.Concurrent.{Shared, ValueEntry}
use moka.Queue.{Queue, find, contains, next_node, peek_front_ptr, push_back, move_to_back}
use moka.Queue.Laws.{Distinct, move_to_back-Distinct}
use moka.Queue.Cursor.{
  absent_before, find_split, next_node_split, move_to_back_split, find-move_to_back,
  length-move_to_back,
}
use moka.Sketch.{FrequencySketch, frequency}
use moka.Cache.Admission.Sums.{
  Sums, Sums-add_victim, Sums-none, total_weight, total_freq, AllVictims,
}
use moka.Cache.Admission.{
  EntrySizeAndFrequency, no_victims, add_victim, Victims, wants_victims, victim_weight, admit_loop,
  admit_fuel, admit, admitted, rejected,
}

-- The same nodes in some order, each address once, and as many.
abbrev pub SameNodes : Queue ℕ → Queue ℕ → Type 0
SameNodes q q' = Distinct q' × ((b : ℕ) → find b q' ≡ find b q) × (length q' ≡ length q)

module _ {K V : Type 0} (dec : Discrete K) (m : List (K × ValueEntry V)) (sh : Shared K)
    (skt : FrequencySketch) where
  module _ (candidate : EntrySizeAndFrequency) where
    abbrev pub Outcome : Queue ℕ → Option (Queue ℕ × EntrySizeAndFrequency × Victims K) → Type 0
    Outcome q none = ⊥
    Outcome q (some (q', v, keys)) = SameNodes q q' × Sums dec m sh skt v keys

    Outcome-trans :
        (q q1 : Queue ℕ) (o : Option (Queue ℕ × EntrySizeAndFrequency × Victims K))
        → SameNodes q q1
        → Outcome q1 o
        → Outcome q o
    Outcome-trans q q1 none n h = h
    Outcome-trans q q1 (some (q', v, keys)) (d, n, k) ((d', n', k'), s) =
        ((d', λ b. n' b ∙ n b, k' ∙ k), s)

    pub loop_stop :
        (fuel a : ℕ) (q : Queue ℕ) (v : EntrySizeAndFrequency) (keys : Victims K) (retries : ℕ)
        → wants_victims candidate v retries ≡ false
        → admit_loop dec m sh skt candidate (suc fuel) q (some a) v keys retries ≡ some (q, v, keys)
    unfolding admit_loop
    loop_stop fuel a q v keys retries h = rw (h, admit_loop) refl

    loop_skip :
        (fuel a i : ℕ) (q : Queue ℕ) (v : EntrySizeAndFrequency) (keys : Victims K) (retries : ℕ)
        → wants_victims candidate v retries ≡ true
        → find a q ≡ some i
        → victim_weight dec m sh i ≡ none
        → admit_loop dec m sh skt candidate (suc fuel) q (some a) v keys retries
          ≡ admit_loop dec m sh skt candidate fuel
              (move_to_back a q)
              (next_node a q)
              v
              keys
              (suc retries)
    unfolding admit_loop
    loop_skip fuel a i q v keys retries h g w = rw (h, g, w, admit_loop) refl

    pub loop_take :
        (fuel a i weight : ℕ) (q : Queue ℕ) (v : EntrySizeAndFrequency) (keys : Victims K)
        (retries : ℕ)
        → wants_victims candidate v retries ≡ true
        → find a q ≡ some i
        → victim_weight dec m sh i ≡ some weight
        → admit_loop dec m sh skt candidate (suc fuel) q (some a) v keys retries
          ≡ admit_loop dec m sh skt candidate fuel q
              (next_node a q)
              (add_victim v weight (frequency skt (sh.infos i).key_hash.hash))
              (keys ++ ((sh.infos i).key_hash, last_accessed (sh.infos i)) ∷ [])
              0
    unfolding admit_loop
    loop_take fuel a i weight q v keys retries h g w = rw (h, g, w, admit_loop) refl

    -- A pointer is to the first node of what is left, or null.
    abbrev IsCursor : Option ℕ → Queue ℕ → Type 0
    IsCursor next r = (next ≡ none) ⊎ (next ≡ peek_front_ptr r)

    IsCursor-push_back : (a i : ℕ) (r : Queue ℕ) → IsCursor (peek_front_ptr r) (push_back a i r)
    IsCursor-push_back a i [] = inl refl
    IsCursor-push_back a i ((b, j) ∷ r) = inr refl

    retries_left :
        (v : EntrySizeAndFrequency) (retries : ℕ)
        → wants_victims candidate v retries ≡ true
        → retries ≤ 5
    retries_left v retries h = ground arith

    length-push_back : (a i : ℕ) (r : Queue ℕ) → length (push_back a i r) ≡ suc (length r)
    length-push_back a i r = ground (arith, length-append r ((a, i) ∷ []))

    -- What the loop does on some fuel, whatever it has seen of the deque.
    abbrev Holds : ℕ → Type 0
    Holds fuel =
        (p r : Queue ℕ) (next : Option ℕ) (v : EntrySizeAndFrequency) (keys : Victims K)
        (retries : ℕ)
        → Distinct (p ++ r)
        → IsCursor next r
        → Sums dec m sh skt v keys
        → retries ≤ 6
        → 7 * length r + 7 ≤ fuel + retries
        → Outcome (p ++ r) (admit_loop dec m sh skt candidate fuel (p ++ r) next v keys retries)

    -- The rounds at a node `a` in the middle of the deque.
    module _ (fuel : ℕ) (ih : Holds fuel) (p r : Queue ℕ) (a i : ℕ) (v : EntrySizeAndFrequency)
        (keys : Victims K) (retries : ℕ) (d : Distinct (p ++ (a, i) ∷ r))
        (s : Sums dec m sh skt v keys) (f : 7 * length ((a, i) ∷ r) + 7 ≤ suc fuel + retries) where
      absent : contains a p ≡ false
      absent = absent_before a i p r d

      skipped :
          retries ≤ 5
          → Outcome (p ++ (a, i) ∷ r) (
              admit_loop dec m sh skt candidate fuel
                (move_to_back a (p ++ (a, i) ∷ r))
                (next_node a (p ++ (a, i) ∷ r))
                v
                keys
                (suc retries))
      skipped l =
          let moved = subst (SameNodes (p ++ (a, i) ∷ r)) (move_to_back_split a i p r absent) (
            move_to_back-Distinct a (p ++ (a, i) ∷ r) d,
            λ x. find-move_to_back a x (p ++ (a, i) ∷ r) d,
            length-move_to_back a (p ++ (a, i) ∷ r),
          ) in
          let rest =
            ih p (push_back a i r) (peek_front_ptr r) v keys (suc retries) moved.0
              (IsCursor-push_back a i r) s (omega arith)
              (ground (arith, length-push_back a i r, f, l)) in
          rw (move_to_back_split a i p r absent, next_node_split a i p r absent)
            (Outcome-trans (p ++ (a, i) ∷ r) (p ++ push_back a i r) _ moved rest)

      taken :
          (weight : ℕ)
          → victim_weight dec m sh i ≡ some weight
          → retries ≤ 5
          → Outcome (p ++ (a, i) ∷ r) (
              admit_loop dec m sh skt candidate fuel
                (p ++ (a, i) ∷ r)
                (next_node a (p ++ (a, i) ∷ r))
                (add_victim v weight (frequency skt (sh.infos i).key_hash.hash))
                (keys ++ ((sh.infos i).key_hash, last_accessed (sh.infos i)) ∷ [])
                0)
      taken weight w l =
          let v' = add_victim v weight (frequency skt (sh.infos i).key_hash.hash) in
          let keys' = keys ++ ((sh.infos i).key_hash, last_accessed (sh.infos i)) ∷ [] in
          let shift = append_assoc p ((a, i) ∷ []) r in
          let rest =
            ih (p ++ (a, i) ∷ []) r (peek_front_ptr r) v' keys' 0 (subst Distinct (sym shift) d)
              (inr refl) (Sums-add_victim dec m sh skt i weight v keys w s) (omega arith)
              (ground (arith, f, l)) in
          rw (next_node_split a i p r absent) (
            subst
              (λ y.
                Outcome y (admit_loop dec m sh skt candidate fuel y (peek_front_ptr r) v' keys' 0))
              shift rest)

      at_front :
          Outcome
            (p ++ (a, i) ∷ r)
            (admit_loop dec m sh skt candidate (suc fuel) (p ++ (a, i) ∷ r) (some a) v keys retries)
      at_front = elim (Bool-cases (wants_victims candidate v retries)) [
        | inr h ↦
            subst (Outcome (p ++ (a, i) ∷ r))
              (sym (loop_stop fuel a (p ++ (a, i) ∷ r) v keys retries h)) ((d, λ x. refl, refl), s)
        | inl h ↦ elim (Option-cases (victim_weight dec m sh i)) [
          | inl w ↦
              subst (Outcome (p ++ (a, i) ∷ r))
                (sym (
                  loop_skip fuel a i (p ++ (a, i) ∷ r) v keys retries h (find_split a i p r absent)
                    w))
                (skipped (retries_left v retries h))
          | inr (weight, w) ↦
              subst (Outcome (p ++ (a, i) ∷ r))
                (sym (
                  loop_take fuel a i weight (p ++ (a, i) ∷ r) v keys retries h
                    (find_split a i p r absent) w))
                (taken weight w (retries_left v retries h))
        ]
      ]

    admit_loop_lem : (fuel : ℕ) → Holds fuel
    unfolding admit_loop
    admit_loop_lem zero p r next v keys retries d c s b f = ground arith
    admit_loop_lem (suc fuel) p r none v keys retries d c s b f = ((d, λ x. refl, refl), s)
    admit_loop_lem (suc fuel) p [] (some a) v keys retries d c s b f = ground (arith, c)
    admit_loop_lem (suc fuel) p ((a', i) ∷ r) (some a) v keys retries d c s b f = elim c [
      | inl h ↦ ground (arith, h)
      | inr h ↦
          subst
            (λ x.
              Outcome (p ++ (a', i) ∷ r)
                (admit_loop dec m sh skt candidate (suc fuel) (p ++ (a', i) ∷ r) x v keys retries))
            (sym h) (at_front fuel (admit_loop_lem fuel) p r a' i v keys retries d s f)
    ]

    -- The decision that `admit` draws from the end of its loop.
    Decided : Queue ℕ → Option (Queue ℕ × EntrySizeAndFrequency × Victims K) → Type 0
    Decided q o =
        (q' : Queue ℕ) × (v : EntrySizeAndFrequency) × (keys : Victims K) × (o ≡ some (q', v, keys))
        × SameNodes q q'
        × Sums dec m sh skt v keys

    decided :
        (q : Queue ℕ) (o : Option (Queue ℕ × EntrySizeAndFrequency × Victims K))
        → Outcome q o
        → Decided q o
    unfolding Decided
    decided q none h = elim h [ ]
    decided q (some (q', v, keys)) (n, s) = (q', v, keys, refl, n, s)

    conclude :
        (q : Queue ℕ)
        → Decided q (
            admit_loop dec m sh skt candidate
              (admit_fuel (length q))
              q
              (peek_front_ptr q)
              no_victims
              []
              0)
        → (q' : Queue ℕ) × (keys : Victims K) × (admit dec m sh skt candidate q
            ≡ some (
              q',
              if leb candidate.policy_weight (total_weight dec m sh skt keys)
                    && ltb (total_freq dec m sh skt keys) candidate.freq
                  then admitted keys
                  else rejected,
            ))
          × SameNodes q q'
          × AllVictims dec m sh skt keys
    unfolding admit Decided
    conclude q (q', v, keys, e, n, (sw, sf, all)) =
        (q', keys, rw (e, admit) (rw (sw, sf) refl), n, all)

    -- On every deque with distinct addresses `admit` ends within its fuel and meets no dangling
    -- pointer, and the deque keeps its nodes. Its result is that of some list of entries which are
    -- clean, alive and in the map: admitted over them if the sum of their weights reaches the
    -- candidate's and the sum of their frequencies is below the candidate's, rejected otherwise.
    pub admit_lem :
        (q : Queue ℕ)
        → Distinct q
        → (q' : Queue ℕ) × (keys : Victims K) × (admit dec m sh skt candidate q
            ≡ some (
              q',
              if leb candidate.policy_weight (total_weight dec m sh skt keys)
                    && ltb (total_freq dec m sh skt keys) candidate.freq
                  then admitted keys
                  else rejected,
            ))
          × SameNodes q q'
          × AllVictims dec m sh skt keys
    admit_lem q d = conclude q (
        decided q
          (admit_loop dec m sh skt candidate (admit_fuel (length q)) q (peek_front_ptr q) no_victims
            [] 0)
          (admit_loop_lem (admit_fuel (length q)) [] q (peek_front_ptr q) no_victims [] 0 d
            (inr refl) (Sums-none dec m sh skt) (omega arith) (omega arith)))
