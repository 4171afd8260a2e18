-- ===== src/Cache/Retired.antt =====
-- src/sync/base_cache.rs: the guard of `handle_upsert` on retired entries (issue 590), over whole
-- batches of the write channel.
use moka.Base.{ℕ, ◌≡◌, refl, ◌∙◌, arith, List, [], ◌∷◌, true, some}
use moka.EntryInfo.{KeyHash, set_policy_gen}
use moka.Concurrent.{ValueEntry, WriteOp, upsert}
use moka.Cache.{State, Config, info_of}
use moka.Cache.Policy.{store_policy_gen}
use moka.Cache.Handle.{handle_upsert, apply_write, apply_writes}

-- An `upsert` message: key, entry, generation, old and new weight.
abbrev pub Message : Type 0 → Type 0 → Type 0
Message K V = KeyHash K × ValueEntry V × ℕ × ℕ × ℕ

abbrev pub to_write_op : {K V : Type 0} → Message K V → WriteOp K V
to_write_op (kh, e, gen, old_weight, new_weight) = upsert kh e gen old_weight new_weight

abbrev pub to_write_ops : {K V : Type 0} → List (Message K V) → List (WriteOp K V)
to_write_ops [] = []
to_write_ops (op ∷ ops) = to_write_op op ∷ to_write_ops ops

module _ {K V : Type 0} where
  abbrev pub AllRetired : State K V → List (Message K V) → Type 0
  AllRetired s [] = Unit {0}
  AllRetired s ((kh, e, gen, old_weight, new_weight) ∷ ops) =
      ((info_of s e).is_retired ≡ true) × AllRetired s ops

  -- Nothing that the policies keep differs, and each entry is as retired as it was.
  abbrev pub SamePolicies : State K V → State K V → Type 0
  SamePolicies s s' =
      (s'.cache ≡ s.cache)
      × (s'.deques ≡ s.deques)
      × (s'.timer_wheel ≡ s.timer_wheel)
      × (s'.counters ≡ s.counters)
      × (s'.notified ≡ s.notified)
      × (s'.shared.deq_nodes ≡ s.shared.deq_nodes)
      × ((i : ℕ) → (s'.shared.infos i).is_retired ≡ (s.shared.infos i).is_retired)

  stored-SamePolicies :
      (s : State K V) (e : ValueEntry V) (gen : ℕ)
      → SamePolicies s (store_policy_gen s e (some gen))
  unfolding store_policy_gen set_policy_gen
  stored-SamePolicies s e gen = (refl, refl, refl, refl, refl, refl, λ i. grind arith)

  SamePolicies-trans :
      (s s1 s2 : State K V) → SamePolicies s s1 → SamePolicies s1 s2 → SamePolicies s s2
  SamePolicies-trans s s1 s2 (a, b, c, d, e, f, g) (a', b', c', d', e', f', g') =
      (a' ∙ a, b' ∙ b, c' ∙ c, d' ∙ d, e' ∙ e, f' ∙ f, λ i. g' i ∙ g i)

  still_retired :
      (s s1 : State K V) (ops : List (Message K V))
      → SamePolicies s s1
      → AllRetired s ops
      → AllRetired s1 ops
  still_retired s s1 [] p h = tt
  still_retired s s1 ((kh, e, gen, old_weight, new_weight) ∷ ops) (a, b, c, d, f, g, r) (h, hs) =
      (r e.info ∙ h, still_retired s s1 ops (a, b, c, d, f, g, r) hs)

  apply_write_retired :
      (dec : Discrete K) (c : Config) (s : State K V) (kh : KeyHash K) (e : ValueEntry V)
      (gen old_weight new_weight : ℕ)
      → (info_of s e).is_retired ≡ true
      → apply_write dec c s (upsert kh e gen old_weight new_weight)
        ≡ some (store_policy_gen s e (some gen))
  unfolding apply_write handle_upsert
  apply_write_retired dec c s kh e gen old_weight new_weight h = rw h refl

  -- A batch of updates to retired entries succeeds, and leaves the map, the deques, the timer wheel,
  -- the counters, the notifications and the pointers of all entries as they were.
  pub apply_writes_retired :
      (dec : Discrete K) (c : Config) (ops : List (Message K V)) (s : State K V)
      → AllRetired s ops
      → (s' : State K V) × (apply_writes dec c s (to_write_ops ops) ≡ some s') × SamePolicies s s'
  unfolding apply_writes apply_write handle_upsert
  apply_writes_retired dec c [] s h = (s, refl, (refl, refl, refl, refl, refl, refl, λ i. refl))
  apply_writes_retired dec c ((kh, e, gen, old_weight, new_weight) ∷ ops) s (h, hs) =
      let s1 = store_policy_gen s e (some gen) in
      let p = stored-SamePolicies s e gen in
      let (s2, r, p') = apply_writes_retired dec c ops s1 (still_retired s s1 ops p hs) in
      (
        s2,
        rw (apply_write_retired dec c s kh e gen old_weight new_weight h, apply_writes) r,
        SamePolicies-trans s s1 s2 p p',
      )
