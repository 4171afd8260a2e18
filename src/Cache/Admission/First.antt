-- ===== src/Cache/Admission/First.antt =====
-- src/sync/base_cache.rs: which entries `admit` takes for its victims.
use moka.Base.{
  ℕ, zero, suc, ◌≤◌, ◌<◌, ◌≡◌, ◌⊎◌, refl, sym, subst, ap, ◌∙◌, inl, inr, List, [], ◌∷◌, ◌++◌, true,
  false, ◌&&◌, some, ltb, leb, if◌then◌else◌, length, arith, Bool-cases,
}
use mathlib.Core.List.{append_assoc, append-nil}
use moka.EntryInfo.{last_accessed, is_dirty}
use moka.Concurrent.{Shared, ValueEntry}
use moka.Queue.{Queue, peek_front_ptr}
use moka.Queue.Laws.{Distinct}
use moka.Queue.Cursor.{absent_before, find_split, next_node_split}
use moka.Sketch.{FrequencySketch, frequency}
use moka.Cache.{get}
use moka.Cache.Admission.Sums.{Sums, Sums-add_victim, Sums-none, total_weight, total_freq}
use moka.Cache.Admission.Loop.{loop_stop, loop_take}
use moka.Cache.Admission.{
  EntrySizeAndFrequency, no_victims, add_victim, Victims, wants_victims, victim_weight, admit_loop,
  admit_fuel, admit, admitted, rejected,
}

module _ {K V : Type 0} (dec : Discrete K) (m : List (K × ValueEntry V)) (sh : Shared K) where
  -- Every info of the deque is clean and alive, and the map has its key.
  abbrev pub AllClean : Queue ℕ → Type 0
  AllClean [] = Unit {0}
  AllClean ((a, i) ∷ q) =
      (is_dirty (sh.infos i) ≡ false)
      × ((sh.infos i).is_retired ≡ false)
      × ((e : ValueEntry V) × (get dec (sh.infos i).key_hash.key m ≡ some e))
      × AllClean q

  clean_weight :
      (i : ℕ) (e : ValueEntry V)
      → is_dirty (sh.infos i) ≡ false
      → (sh.infos i).is_retired ≡ false
      → get dec (sh.infos i).key_hash.key m ≡ some e
      → victim_weight dec m sh i ≡ some (sh.infos e.info).policy_weight
  unfolding victim_weight
  clean_weight i e d r g = grind arith

module _ {K : Type 0} (sh : Shared K) where
  -- The keys and last accesses of the nodes.
  unfoldable pub keys_of : Queue ℕ → Victims K
  keys_of [] = []
  keys_of ((a, i) ∷ q) = ((sh.infos i).key_hash, last_accessed (sh.infos i)) ∷ keys_of q

  keys_of-append :
      (p : Queue ℕ) (a i : ℕ)
      → keys_of (p ++ (a, i) ∷ [])
        ≡ keys_of p ++ ((sh.infos i).key_hash, last_accessed (sh.infos i)) ∷ []
  unfolding keys_of
  keys_of-append [] a i = refl
  keys_of-append ((b, j) ∷ p) a i =
      ap (λ l. ((sh.infos j).key_hash, last_accessed (sh.infos j)) ∷ l) (keys_of-append p a i)

module _ {K V : Type 0} (dec : Discrete K) (m : List (K × ValueEntry V)) (sh : Shared K)
    (skt : FrequencySketch) (candidate : EntrySizeAndFrequency) where
  -- The nodes are enough: they make room for the candidate, or they are more popular.
  abbrev pub Enough : Queue ℕ → Type 0
  Enough p =
      (candidate.policy_weight ≤ total_weight dec m sh skt (keys_of sh p))
      ⊎ (candidate.freq < total_freq dec m sh skt (keys_of sh p))

  abbrev pub Lacking : Queue ℕ → Type 0
  Lacking p =
      (total_weight dec m sh skt (keys_of sh p) < candidate.policy_weight)
      × (total_freq dec m sh skt (keys_of sh p) ≤ candidate.freq)

  -- Before each of the nodes that follow `p`, those up to it were not enough.
  abbrev pub AllNeeded : Queue ℕ → Queue ℕ → Type 0
  AllNeeded p [] = Unit {0}
  AllNeeded p (x ∷ q) = Lacking p × AllNeeded (p ++ x ∷ []) q

  -- The loop goes on from `p` through the nodes of `r` up to the first that it does not need.
  Gathers : ℕ → Queue ℕ → Queue ℕ → EntrySizeAndFrequency → Type 0
  Gathers fuel p r v =
      (taken rest : Queue ℕ) × (v' : EntrySizeAndFrequency) × (r ≡ taken ++ rest)
      × (admit_loop dec m sh skt candidate fuel (p ++ r) (peek_front_ptr r) v (keys_of sh p) 0
          ≡ some (p ++ r, v', keys_of sh (p ++ taken)))
      × Sums dec m sh skt v' (keys_of sh (p ++ taken))
      × ((rest ≡ []) ⊎ Enough (p ++ taken))
      × AllNeeded p taken

  Lacking_lem :
      (p : Queue ℕ) (v : EntrySizeAndFrequency)
      → Sums dec m sh skt v (keys_of sh p)
      → wants_victims candidate v 0 ≡ true
      → Lacking p
  Lacking_lem p v (sw, sf, all) h = ground (arith, sw, sf, h)

  Enough_lem :
      (p : Queue ℕ) (v : EntrySizeAndFrequency)
      → Sums dec m sh skt v (keys_of sh p)
      → wants_victims candidate v 0 ≡ false
      → Enough p
  Enough_lem p v (sw, sf, all) h = ground (arith, sw, sf, h)

  -- The loop stops at once.
  none_taken :
      (fuel : ℕ) (p r : Queue ℕ) (v : EntrySizeAndFrequency)
      → Sums dec m sh skt v (keys_of sh p)
      → admit_loop dec m sh skt candidate fuel (p ++ r) (peek_front_ptr r) v (keys_of sh p) 0
        ≡ some (p ++ r, v, keys_of sh p)
      → (r ≡ []) ⊎ Enough p
      → Gathers fuel p r v
  unfolding Gathers
  none_taken fuel p r v s k h =
      let empty = sym (append-nil p) in
      (
        [],
        r,
        v,
        refl,
        k ∙ ap (λ x. some (p ++ r, v, keys_of sh x)) empty,
        subst (λ x. Sums dec m sh skt v (keys_of sh x)) empty s,
        subst (λ x. (r ≡ []) ⊎ Enough x) empty h,
        tt,
      )

  -- The loop takes a node and goes on.
  one_taken :
      (fuel : ℕ) (p r : Queue ℕ) (a i weight : ℕ) (v : EntrySizeAndFrequency)
      → Distinct (p ++ (a, i) ∷ r)
      → victim_weight dec m sh i ≡ some weight
      → Lacking p
      → wants_victims candidate v 0 ≡ true
      → Gathers fuel
          (p ++ (a, i) ∷ [])
          r
          (add_victim v weight (frequency skt (sh.infos i).key_hash.hash))
      → Gathers (suc fuel) p ((a, i) ∷ r) v
  unfolding Gathers
  one_taken fuel p r a i weight v d w n h (taken, rest, v', q, k, s, en, al) =
      let x : ℕ × ℕ = (a, i) in
      let v2 = add_victim v weight (frequency skt (sh.infos i).key_hash.hash) in
      let absent = absent_before a i p r d in
      let shift = append_assoc p (x ∷ []) taken in
      let here = p ++ x ∷ r in
      let ks = keys_of sh p ++ ((sh.infos i).key_hash, last_accessed (sh.infos i)) ∷ [] in
      (
        x ∷ taken,
        rest,
        v',
        ap (λ l. x ∷ l) q,
        loop_take dec m sh skt candidate fuel a i weight here v (keys_of sh p) 0 h
              (find_split a i p r absent) w
            ∙ ap (λ y. admit_loop dec m sh skt candidate fuel here y v2 ks 0)
                (next_node_split a i p r absent)
            ∙ ap (λ y. admit_loop dec m sh skt candidate fuel here (peek_front_ptr r) v2 y 0)
                (sym (keys_of-append sh p a i))
            ∙ subst
                (λ y.
                  admit_loop dec m sh skt candidate fuel y (peek_front_ptr r) v2
                    (keys_of sh (p ++ x ∷ [])) 0
                  ≡ some (y, v', keys_of sh (p ++ x ∷ taken)))
                (append_assoc p (x ∷ []) r)
                (k ∙ ap (λ y. some ((p ++ x ∷ []) ++ r, v', keys_of sh y)) shift),
        subst (λ y. Sums dec m sh skt v' (keys_of sh y)) shift s,
        subst (λ y. (rest ≡ []) ⊎ Enough y) shift en,
        (n, al),
      )

  gather_lem :
      (fuel : ℕ) (p r : Queue ℕ) (v : EntrySizeAndFrequency)
      → Distinct (p ++ r)
      → AllClean dec m sh r
      → Sums dec m sh skt v (keys_of sh p)
      → length r < fuel
      → Gathers fuel p r v
  unfolding admit_loop
  gather_lem zero p r v d c s f = absurd (ground (arith, f))
  gather_lem (suc fuel) p [] v d c s f = none_taken (suc fuel) p [] v s refl (inl refl)
  gather_lem (suc fuel) p ((a, i) ∷ r) v d (cd, cr, (e, cg), c) s f =
      let w = (sh.infos e.info).policy_weight in
      let cw = clean_weight dec m sh i e cd cr cg in
      let v2 = add_victim v w (frequency skt (sh.infos i).key_hash.hash) in
      elim (Bool-cases (wants_victims candidate v 0)) [
        | inr h ↦
            none_taken (suc fuel) p ((a, i) ∷ r) v s
              (loop_stop dec m sh skt candidate fuel a (p ++ (a, i) ∷ r) v (keys_of sh p) 0 h)
              (inr (Enough_lem p v s h))
        | inl h ↦ one_taken fuel p r a i w v d cw (Lacking_lem p v s h) h (
            gather_lem fuel (p ++ (a, i) ∷ []) r v2
              (subst Distinct (sym (append_assoc p ((a, i) ∷ []) r)) d) c
              (subst (Sums dec m sh skt v2) (sym (keys_of-append sh p a i))
                (Sums-add_victim dec m sh skt i w v (keys_of sh p) cw s))
              (omega (arith, f)))
      ]

  -- On a deque with distinct addresses whose entries are all clean, alive and in the map,
  -- `admit` ends within its fuel and meets no dangling pointer, and leaves the deque as it is.
  -- Its victims are the shortest part at the front of the deque whose weights together reach
  -- the candidate's or whose frequencies together exceed the candidate's, the whole deque if no
  -- part does; and the candidate is admitted over them if their weights reach its own and their
  -- frequencies are below its own, and rejected otherwise.
  pub admit_first :
      (q : Queue ℕ)
      → Distinct q
      → AllClean dec m sh q
      → (taken rest : Queue ℕ) × (q ≡ taken ++ rest)
        × ((rest ≡ []) ⊎ Enough taken)
        × AllNeeded [] taken
        × (admit dec m sh skt candidate q
            ≡ some (
              q,
              if leb candidate.policy_weight (total_weight dec m sh skt (keys_of sh taken))
                    && ltb (total_freq dec m sh skt (keys_of sh taken)) candidate.freq
                  then admitted (keys_of sh taken)
                  else rejected,
            ))
  unfolding Gathers admit keys_of
  admit_first q d c =
      let (taken, rest, v, e, k, (sw, sf, all), en, al) =
        gather_lem (admit_fuel (length q)) [] q no_victims d c (Sums-none dec m sh skt)
          (omega arith) in
      (taken, rest, e, en, al, rw (k, admit) (rw (sw, sf) refl))
