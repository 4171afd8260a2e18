-- ===== src/Cache/Invariant/Handle.antt =====
-- src/sync/base_cache.rs: the invariant over `apply_writes`.
use moka.Base.{
  All, ℕ, ◌≡◌, refl, inl, inr, List, [], ◌∷◌, Bool, false, none, some, Bool-cases, ltb, leb, ◌&&◌,
  if◌then◌else◌, arith,
}
use moka.Concurrent.{ValueEntry}
use moka.Cache.{State, Config}
use moka.Cache.Policy.{store_policy_gen}
use moka.Cache.Linked.{IsPaired, is_admitted_at}
use moka.EntryInfo.{KeyHash}
use moka.Queue.{Queue}
use moka.Concurrent.{WriteOp, upsert, remove}
use moka.Sketch.{frequency}
use moka.Deques.{move_to_back_wo}
use moka.Cache.{
  info_of, saturating_add, counters_sub, has_enough_capacity, EvictionPolicyConfig, tiny_lfu, lru,
}
use moka.Cache.Linked.Move.{Moved, Moved-refl}
use moka.Cache.Invariant.{IsConsistent, Harmless, IsConsistent-Harmless, Keeps}
use moka.Cache.Invariant.Policy.{handle_admit-IsConsistent}
use moka.Cache.Invariant.Removal.{update_timer_wheel-Removes, handle_remove-Removes}
use moka.Cache.Invariant.Moves.{with_deques-IsConsistent, move_to_back_ao-IsConsistent}
use moka.Cache.Handle.{
  update_admitted, reject_oversized, reject, admit_candidate, admission, admit_or_reject,
  handle_new, handle_upsert, apply_write, apply_writes,
}
use moka.Cache.Admission.{AdmissionResult, admitted, rejected, new_candidate}
use moka.Cache.Admission.Sums.{total_weight, total_freq}
use moka.Cache.Admission.Loop.{admit_lem}
use moka.Cache.Invariant.Victims.{
  stored-IsConsistent, reject_oversized-IsConsistent, reject-IsConsistent, remove_victims-Removes,
}

module _ {K V : Type 0} where
  -- The entry of the message is paired.
  abbrev pub IsWritable : WriteOp K V → Type 0
  IsWritable (upsert kh e gen old_weight new_weight) = IsPaired e
  IsWritable (remove k e gen) = IsPaired e

  abbrev pub AllWritable : List (WriteOp K V) → Type 0
  AllWritable ops = All IsWritable ops

module _ {K V : Type 0} where
  reweighted-Harmless :
      (s : State K V) (old new : ℕ)
      → Harmless s (record s { counters = saturating_add (counters_sub s.counters 0 old) 0 new })
  reweighted-Harmless s old new = record {
    same_links = record {
      same_deques = refl;
      same_count = omega arith;
      same_ao = λ i. refl;
      same_wo = λ i. refl;
      same_admitted = λ i. refl;
      later = omega arith;
    };
    same_wheel = refl;
    same_timers = λ i. refl;
    still_paired = λ Q x. x;
  }

module _ {K V : Type 0} {P : K → ValueEntry V → Type 0} (dec : Discrete K) (c : Config) where
  update_admitted-Keeps :
      (s : State K V) (e : ValueEntry V) (gen old new : ℕ)
      → IsConsistent P s
      → IsPaired e
      → Keeps P (update_admitted dec c s e gen old new)
  unfolding update_admitted
  update_admitted-Keeps s e gen old new h p =
      let s0 = record s { counters = saturating_add (counters_sub s.counters 0 old) 0 new } in
      let h0 = IsConsistent-Harmless s s0 (reweighted-Harmless s old new) h in
      let (s1, k1, h1, d1) = update_timer_wheel-Removes s0 e h0 p in
      let (d, k2, ha, h2) = move_to_back_ao-IsConsistent s1 h1 e.nodes in
      let s2 = record s1 { deques = move_to_back_wo d s1.shared e.nodes } in
      (
        store_policy_gen s2 e (some gen),
        rw k1 (rw k2 refl),
        stored-IsConsistent dec c s2 e (some gen) h2,
      )

  module _ (s : State K V) (kh : KeyHash K) (e : ValueEntry V) (gen new_weight : ℕ)
      (h : IsConsistent P s) (p : IsPaired e) (n : is_admitted_at s e.info ≡ false) where
    admit_candidate-Keeps : Keeps P (admit_candidate dec c s e gen new_weight)
    unfolding admit_candidate
    admit_candidate-Keeps =
        let (s1, k1, h1) = handle_admit-IsConsistent c s e new_weight h p n in
        (store_policy_gen s1 e (some gen), rw k1 refl, stored-IsConsistent dec c s1 e (some gen) h1)

    -- The policy rearranges the deque at most.
    admission_total :
        (q : Queue ℕ) × (result : AdmissionResult K) × (admission dec c s kh new_weight
          ≡ some (q, result))
        × Moved s.deques.probation q
    unfolding admission
    admission_total = go c.eviction_policy refl
      where
        go :
            (x : EvictionPolicyConfig)
            → c.eviction_policy ≡ x
            → (q : Queue ℕ) × (result : AdmissionResult K) × (admission dec c s kh new_weight
                ≡ some (q, result))
              × Moved s.deques.probation q
        go lru k = (
          s.deques.probation,
          admitted [],
          rw k refl,
          Moved-refl s.deques.probation h.links.ao_distinct,
        )
        go tiny_lfu k =
            let candidate = new_candidate new_weight (frequency s.sketch kh.hash) in
            let (q, keys, r, (d, f, l), all) =
              admit_lem dec s.cache s.shared s.sketch candidate s.deques.probation
                h.links.ao_distinct in
            (
              q,
              if leb new_weight (total_weight dec s.cache s.shared s.sketch keys)
                    && ltb (total_freq dec s.cache s.shared s.sketch keys) candidate.freq
                  then admitted keys
                  else rejected,
              rw k r,
              record { still_distinct = d; same_find = f; same_length = l },
            )

    admit_or_reject-Keeps :
        (result : AdmissionResult K) → Keeps P (admit_or_reject dec c s kh e gen new_weight result)
    unfolding admit_or_reject
    admit_or_reject-Keeps rejected =
        (reject dec c s kh e gen, refl, reject-IsConsistent dec c s kh e gen h)
    admit_or_reject-Keeps (admitted victims) =
        let (s1, k1, h1, d1) = remove_victims-Removes dec c s victims h in
        let (s2, k2, h2) = handle_admit-IsConsistent c s1 e new_weight h1 p (d1 e.info n) in
        (
          store_policy_gen s2 e (some gen),
          rw k1 (unfold admit_candidate in rw k2 refl),
          stored-IsConsistent dec c s2 e (some gen) h2,
        )

  module _ (s : State K V) (kh : KeyHash K) (e : ValueEntry V) (gen new_weight : ℕ)
      (h : IsConsistent P s) (p : IsPaired e) (n : is_admitted_at s e.info ≡ false) where
    handle_new-Keeps : Keeps P (handle_new dec c s kh e gen new_weight)
    unfolding handle_new
    handle_new-Keeps = elim (Bool-cases (has_enough_capacity c new_weight s.counters)) [
      | inl x ↦ rw (x, handle_new) (admit_candidate-Keeps s kh e gen new_weight h p n)
      | inr x ↦
          elim (Bool-cases (elim c.max_capacity as (λ y. Bool) [
            | none ↦ false
            | some limit ↦ ltb limit new_weight
          ])) [
            | inl y ↦ (
              reject_oversized dec c s kh e gen,
              rw (x, y, handle_new) refl,
              reject_oversized-IsConsistent dec c s kh e gen h,
            )
            | inr y ↦
                let (q, result, k, m) = admission_total s kh e gen new_weight h p n in
                let s1 = record s { deques = record s.deques { probation = q } } in
                let h1 =
                  with_deques-IsConsistent s h q s.deques.write_order m
                    (Moved-refl s.deques.write_order h.links.wo_distinct) in
                let (s2, k2, h2) = admit_or_reject-Keeps s1 kh e gen new_weight h1 p n result in
                (s2, rw (x, y, handle_new) (rw k k2), h2)
          ]
    ]

  handle_upsert-Keeps :
      (s : State K V) (kh : KeyHash K) (e : ValueEntry V) (gen old new : ℕ)
      → IsConsistent P s
      → IsPaired e
      → Keeps P (handle_upsert dec c s kh e gen old new)
  unfolding handle_upsert
  handle_upsert-Keeps s kh e gen old new h p = elim (Bool-cases ((info_of s e).is_retired)) [
    | inl r ↦
        (store_policy_gen s e (some gen), rw r refl, stored-IsConsistent dec c s e (some gen) h)
    | inr r ↦ elim (Bool-cases (is_admitted_at s e.info)) [
      | inl a ↦ let (s1, k, h1) = update_admitted-Keeps s e gen old new h p in (s1, rw (r, a) k, h1)
      | inr a ↦ let (s1, k, h1) = handle_new-Keeps s kh e gen new h p a in (s1, rw (r, a) k, h1)
    ]
  ]

  apply_write-Keeps :
      (s : State K V) (op : WriteOp K V)
      → IsConsistent P s
      → IsWritable op
      → Keeps P (apply_write dec c s op)
  unfolding apply_write
  apply_write-Keeps s (upsert kh e gen old new) h p = handle_upsert-Keeps s kh e gen old new h p
  apply_write-Keeps s (remove k e gen) h p =
      let (s1, r, h1, d) = handle_remove-Removes s e h p (some gen) in (s1, r, h1)

  -- A batch of write operations on a consistent state, their entries paired with their queue
  -- nodes, succeeds and leaves a consistent state, whatever the map says of the victims and the
  -- candidates.
  pub apply_writes-IsConsistent :
      (s : State K V) (ops : List (WriteOp K V))
      → IsConsistent P s
      → AllWritable ops
      → (s' : State K V) × (apply_writes dec c s ops ≡ some s') × IsConsistent P s'
  unfolding apply_writes
  apply_writes-IsConsistent s [] h p = (s, refl, h)
  apply_writes-IsConsistent s (op ∷ ops) h p =
      let (s1, k1, h1) = apply_write-Keeps s op h p.0 in
      let (s2, k2, h2) = apply_writes-IsConsistent s1 ops h1 p.1 in (s2, rw k1 k2, h2)
