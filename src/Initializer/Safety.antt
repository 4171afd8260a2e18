-- ===== src/Initializer/Safety.antt =====
-- src/sync/value_initializer.rs: what holds of the calls and of the table of waiters between any two
-- steps.
use mathlib.Core.Option.{some-injective}
use moka.Base.{
  ℕ, ◌<◌, ◌≡◌, ◌≢◌, ◌⊎◌, refl, subst, sym, ◌∙◌, true, false, Option, some, arith, ℕ_discrete,
}
use moka.Concurrent.{update}
use moka.Initializer.{
  WaiterValue, computing, ready, ready_none, init_closure_panicked, End, returned, resumed,
  too_many_retries, unexpected_state, unwound, Phase, inserting, waiting, checking, evaluating,
  removing, returning, ended, Call, ValueInitializer, max_retries, has_lock,
}

module _ {V E : Type 0} where
  abbrev pub IsSettled : WaiterValue V E → Type 0
  IsSettled computing = ⊥
  IsSettled ready_none = ⊥
  IsSettled (ready result) = Unit {0}
  IsSettled init_closure_panicked = Unit {0}

  abbrev pub IsExpected : End V E → Type 0
  IsExpected (returned result) = Unit {0}
  IsExpected resumed = Unit {0}
  IsExpected too_many_retries = Unit {0}
  IsExpected unexpected_state = ⊥
  IsExpected unwound = ⊥

  abbrev pub IsOutside : End V E → Type 0
  IsOutside unwound = Unit {0}
  IsOutside (returned result) = ⊥
  IsOutside resumed = ⊥
  IsOutside too_many_retries = ⊥
  IsOutside unexpected_state = ⊥

  abbrev pub IsUnfinished : Phase V E → Type 0
  IsUnfinished (ended x) = ⊥
  IsUnfinished (inserting retries) = Unit {0}
  IsUnfinished (waiting o retries) = Unit {0}
  IsUnfinished checking = Unit {0}
  IsUnfinished evaluating = Unit {0}
  IsUnfinished (removing x) = Unit {0}
  IsUnfinished (returning x) = Unit {0}

  pub outside_lem : (r : End V E) → IsOutside r → r ≡ unwound
  outside_lem unwound y = refl
  outside_lem (returned result) y = absurd y
  outside_lem resumed y = absurd y
  outside_lem too_many_retries y = absurd y
  outside_lem unexpected_state y = absurd y

  -- The waiter of the call is in the table, or has been.
  abbrev pub HasBegun : Phase V E → WaiterValue V E → Type 0
  HasBegun (inserting retries) x = ⊥
  HasBegun (waiting o retries) x = ⊥
  HasBegun checking x = Unit {0}
  HasBegun evaluating x = Unit {0}
  HasBegun (removing r) x = IsSettled x
  HasBegun (returning r) x = IsSettled x
  HasBegun (ended r) x = IsSettled x ⊎ IsOutside r

  -- The waiter of the call may be in the table.
  abbrev pub IsHolding : Phase V E → Type 0
  IsHolding (inserting retries) = ⊥
  IsHolding (waiting o retries) = ⊥
  IsHolding checking = Unit {0}
  IsHolding evaluating = Unit {0}
  IsHolding (removing r) = Unit {0}
  IsHolding (returning r) = ⊥
  IsHolding (ended r) = IsOutside r

module _ {W V E : Type 0} where
  -- A call for the key that has begun.
  abbrev pub Owns : ValueInitializer W V E → ℕ → W → Type 0
  Owns p o w = (c : Call W V E) × (p.calls o ≡ some c) × (c.key ≡ w) × HasBegun c.phase (p.values o)

  -- User code has panicked outside `catch_unwind` in a call for the key.
  abbrev pub Poisoned : ValueInitializer W V E → W → Type 0
  Poisoned p w =
      (m : ℕ) × (d : Call W V E) × (p.calls m ≡ some d) × (d.key ≡ w) × (d.phase ≡ ended unwound)

  abbrev pub IsEnd : ValueInitializer W V E → W → End V E → Type 0
  IsEnd p w (returned result) = Unit {0}
  IsEnd p w resumed = Unit {0}
  IsEnd p w too_many_retries = Unit {0}
  IsEnd p w unexpected_state = Poisoned p w
  IsEnd p w unwound = Unit {0}

  pub IsExpected-IsEnd :
      (p : ValueInitializer W V E) (w : W) (r : End V E) → IsExpected r → IsEnd p w r
  IsExpected-IsEnd p w (returned result) e = tt
  IsExpected-IsEnd p w resumed e = tt
  IsExpected-IsEnd p w too_many_retries e = tt
  IsExpected-IsEnd p w unexpected_state e = absurd e
  IsExpected-IsEnd p w unwound e = tt

  abbrev pub IsGood : ValueInitializer W V E → ℕ → W → Phase V E → Type 0
  IsGood p n w (inserting retries) = (p.is_locked n ≡ true) × (retries < max_retries)
  IsGood p n w (waiting o retries) = (p.is_locked n ≡ true) × (retries < max_retries) × Owns p o w
  IsGood p n w checking = (p.is_locked n ≡ true) × (p.waiters w ≡ some n)
  IsGood p n w evaluating = (p.is_locked n ≡ true) × (p.waiters w ≡ some n)
  IsGood p n w (removing r) =
      (p.is_locked n ≡ true) × (p.waiters w ≡ some n) × IsSettled (p.values n) × IsExpected r
  IsGood p n w (returning r) = (p.is_locked n ≡ true) × IsSettled (p.values n) × IsExpected r
  IsGood p n w (ended r) = (p.is_locked n ≡ false) × IsEnd p w r

  abbrev pub Holds : ValueInitializer W V E → ℕ → W → Type 0
  Holds p o w = (c : Call W V E) × (p.calls o ≡ some c) × (c.key ≡ w) × IsHolding c.phase

  -- Each call is as its phase says, and the table has the waiters of calls that are at work.
  pub record IsOrdered (p : ValueInitializer W V E) : Type 0 where
    pub good : (n : ℕ) (c : Call W V E) → p.calls n ≡ some c → IsGood p n c.key c.phase
    pub held : (w : W) (o : ℕ) → p.waiters w ≡ some o → Holds p o w

module _ {A : Type 0} (f : ℕ → A) (a : ℕ) (v : A) where
  pub update_self : update f a v a ≡ v
  update_self = ground arith

  pub update_other : (b : ℕ) → b ≢ a → update f a v b ≡ f b
  update_other b n = ground (arith, n)

-- A change of one call: its phase and lock, its value, and its place in the table.
module _ {W V E : Type 0} (p : ValueInitializer W V E) (n : ℕ) (w : W) (table : W → Option ℕ)
    (values : ℕ → WaiterValue V E) (phase : Phase V E) where
  abbrev pub changed : ValueInitializer W V E
  changed = record {
    waiters = table;
    values = values;
    is_locked = update p.is_locked n (has_lock phase);
    calls = update p.calls n (some (record { key = w; phase = phase }));
  }

  pub record IsLocal : Type 0 where
    pub same_values : (m : ℕ) → m ≢ n → values m ≡ p.values m
    pub kept : (v : W) (m : ℕ) → m ≢ n → p.waiters v ≡ some m → table v ≡ some m
    pub back : (v : W) (m : ℕ) → m ≢ n → table v ≡ some m → p.waiters v ≡ some m
    pub begun : (v : W) → Owns p n v → (w ≡ v) × HasBegun phase (values n)
    pub unended : (d : Call W V E) → p.calls n ≡ some d → IsUnfinished d.phase
    pub own_good : IsGood changed n w phase
    pub own_held : (v : W) → table v ≡ some n → (w ≡ v) × IsHolding phase

  module _ (f : IsLocal) (h : IsOrdered p) where
    same_calls : (m : ℕ) → m ≢ n → changed.calls m ≡ p.calls m
    same_calls m d = update_other p.calls n (some (record { key = w; phase = phase })) m d

    own_call : changed.calls n ≡ some (record { key = w; phase = phase })
    own_call = update_self p.calls n (some (record { key = w; phase = phase }))

    still_locked : (m : ℕ) → m ≢ n → p.is_locked m ≡ true → changed.is_locked m ≡ true
    still_locked m d k = update_other p.is_locked n (has_lock phase) m d ∙ k

    changed-Owns : (o : ℕ) (v : W) → Owns p o v → Owns changed o v
    changed-Owns o v (c, k, e, b) = elim (ℕ_discrete o n) [
      | yes q ↦
          let (same, begun) = f.begun v (subst (λ i. Owns p i v) q (c, k, e, b)) in
          subst (λ i. Owns changed i v) (sym q)
            (record { key = w; phase = phase }, own_call, same, begun)
      | no d ↦ (c, same_calls o d ∙ k, e, subst (HasBegun c.phase) (sym (f.same_values o d)) b)
    ]

    changed-Poisoned : (v : W) → Poisoned p v → Poisoned changed v
    changed-Poisoned v (m, d, k, e, x) = elim (ℕ_discrete m n) [
      | yes q ↦ absurd (subst IsUnfinished x (f.unended d (subst (λ i. p.calls i ≡ some d) q k)))
      | no ne ↦ (m, d, same_calls m ne ∙ k, e, x)
    ]

    changed-IsEnd : (v : W) (r : End V E) → IsEnd p v r → IsEnd changed v r
    changed-IsEnd v (returned result) e = tt
    changed-IsEnd v resumed e = tt
    changed-IsEnd v too_many_retries e = tt
    changed-IsEnd v unexpected_state e = changed-Poisoned v e
    changed-IsEnd v unwound e = tt

    changed-IsSettled : (m : ℕ) → m ≢ n → IsSettled (p.values m) → IsSettled (values m)
    changed-IsSettled m d b = subst IsSettled (sym (f.same_values m d)) b

    IsGood-changed : (m : ℕ) (v : W) (x : Phase V E) → m ≢ n → IsGood p m v x → IsGood changed m v x
    IsGood-changed m v (inserting retries) d (l, b) = (still_locked m d l, b)
    IsGood-changed m v (waiting o retries) d (l, b, q) = (still_locked m d l, b, changed-Owns o v q)
    IsGood-changed m v checking d (l, t) = (still_locked m d l, f.kept v m d t)
    IsGood-changed m v evaluating d (l, t) = (still_locked m d l, f.kept v m d t)
    IsGood-changed m v (removing r) d (l, t, b, e) =
        (still_locked m d l, f.kept v m d t, changed-IsSettled m d b, e)
    IsGood-changed m v (returning r) d (l, b, e) = (still_locked m d l, changed-IsSettled m d b, e)
    IsGood-changed m v (ended r) d (l, e) =
        (update_other p.is_locked n (has_lock phase) m d ∙ l, changed-IsEnd v r e)

    changed-IsGood :
        (m : ℕ) (c : Call W V E) → changed.calls m ≡ some c → IsGood changed m c.key c.phase
    changed-IsGood m c k = elim (ℕ_discrete m n) [
      | yes q ↦
          let own : Call W V E = record { key = w; phase = phase } in
          let e = some-injective own c (sym own_call ∙ subst (λ i. changed.calls i ≡ some c) q k) in
          subst (λ i. IsGood changed i c.key c.phase) (sym q)
            (subst (λ x. IsGood changed n x.key x.phase) e f.own_good)
      | no d ↦ IsGood-changed m c.key c.phase d (h.good m c (sym (same_calls m d) ∙ k))
    ]

    held_after : (v : W) (o : ℕ) → table v ≡ some o → Holds changed o v
    held_after v o t = elim (ℕ_discrete o n) [
      | yes q ↦
          let (e, a) = f.own_held v (subst (λ i. table v ≡ some i) q t) in
          subst (λ i. Holds changed i v) (sym q) (record { key = w; phase = phase }, own_call, e, a)
      | no d ↦ let (c, k, e, a) = h.held v o (f.back v o d t) in (c, same_calls o d ∙ k, e, a)
    ]

    pub changed-IsOrdered : IsOrdered changed
    changed-IsOrdered = record { good = changed-IsGood; held = held_after }
