-- ===== src/EntryInfo/Generations.antt =====
-- src/common/concurrent/entry_info.rs: the entry generation, the policy generation and `is_dirty`.
use moka.Base.{ℕ, ◌+◌, ◌/◌, ◌≤◌, ◌≡◌, ◌⊎◌, List, [], ◌∷◌, true, false, arith}
use moka.Base.Word.{u16_max}
use moka.EntryInfo.{EntryInfo, is_behind, policy_gen_loop, incr_entry_gen, set_policy_gen, is_dirty}

module _ {ℓ} {K : Type ℓ} (e : EntryInfo K) where
  -- When a write operation of the current generation is applied, the entry stops being dirty, if
  -- at most 32,767 generations, without a wrap of the 16-bit counter, lie in between.
  pub set_policy_gen-clean :
      e.policy_gen ≤ e.entry_gen
      → e.entry_gen ≤ e.policy_gen + u16_max / 2
      → e.entry_gen ≤ u16_max
      → is_dirty (set_policy_gen [] e e.entry_gen) ≡ false
  unfolding set_policy_gen policy_gen_loop is_behind
  set_policy_gen-clean h k b = ground arith

  -- A late operation, of a generation that is behind by up to 32,768 across a wrap or behind
  -- without one, does not move the policy generation back.
  pub set_policy_gen-late :
      (value : ℕ)
      → e.policy_gen ≤ u16_max
      → value ≤ u16_max
      → (value ≤ e.policy_gen) ⊎ (e.policy_gen + 0x8000 ≤ value)
      → set_policy_gen [] e value ≡ e
  unfolding set_policy_gen policy_gen_loop is_behind
  set_policy_gen-late value b b' h = ground arith

  -- Any update of a clean entry makes it dirty, also where the 16-bit counter wraps.
  pub incr_entry_gen-dirty :
      e.entry_gen ≤ u16_max
      → e.policy_gen ≤ u16_max
      → is_dirty e ≡ false
      → is_dirty (incr_entry_gen e).0 ≡ true
  unfolding incr_entry_gen
  incr_entry_gen-dirty b b' h = ground arith

  -- Once the policy generation is 65,535, no call stores another value, whatever the other threads
  -- do: a wrap of the entry generation is never followed.
  pub set_policy_gen-max :
      (others : List ℕ) (value : ℕ)
      → e.policy_gen ≡ u16_max
      → value ≤ u16_max
      → (set_policy_gen others e value).policy_gen ≡ u16_max
  unfolding set_policy_gen policy_gen_loop is_behind
  set_policy_gen-max [] value h b = ground arith
  set_policy_gen-max (o ∷ others) value h b = ground arith

  -- So an entry whose generations both reached 65,535 is dirty after its next update, and stays
  -- so when the write operation of that update is applied.
  pub wrapped_stays_dirty :
      (others : List ℕ)
      → e.entry_gen ≡ u16_max
      → e.policy_gen ≡ u16_max
      → let (e', gen) = incr_entry_gen e in
        (gen ≡ 0) × (is_dirty (set_policy_gen others e' gen) ≡ true)
  unfolding incr_entry_gen set_policy_gen policy_gen_loop is_behind
  wrapped_stays_dirty [] h k = ground arith
  wrapped_stays_dirty (o ∷ others) h k = ground arith
