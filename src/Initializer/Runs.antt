-- ===== src/Initializer/Runs.antt =====
-- src/sync/value_initializer.rs: whatever order the calls take their steps in.
use mathlib.Core.Option.{none-ne-some}
use moka.Base.{
  ℕ, suc, ◌≡◌, ◌⊎◌, ap, refl, subst, sym, ◌∙◌, inl, inr, true, false, Option, none, some, arith,
  ltb, Bool-cases, Option-cases,
}
use moka.Concurrent.{update}
use moka.Initializer.{
  Result, ok, err, WaiterValue, computing, ready, ready_none, init_closure_panicked, returned,
  resumed, too_many_retries, unexpected_state, unwound, unwinds, is_ready, read_existing, init_err,
  Phase, inserting, waiting, checking, evaluating, removing, returning, ended, Event, proceed, got,
  evaluated, panicked, Call, ValueInitializer, max_retries, init_end, enter, try_insert_waiter,
  read_waiter, advance, step_call, try_init_or_read,
}
use moka.Initializer.Safety.{
  IsSettled, IsExpected, IsExpected-IsEnd, outside_lem, IsUnfinished, Poisoned, HasBegun, IsHolding,
  Owns, IsGood, IsOrdered, update_self, update_other, changed-IsOrdered,
}
use moka.Initializer.Steps.{
  this_call-IsGood, held_now, enter-Poisoned, freed_now, locked_now, enter-IsOrdered,
  publish-IsOrdered, inserted-IsOrdered, removed-IsOrdered,
}

module _ {W V E : Type 0} where
  abbrev pub IsFine : Option (ValueInitializer W V E) → Type 0
  IsFine none = Unit {0}
  IsFine (some p) = IsOrdered p

  -- A waiter whose write lock is free, of a call that has begun, has its result,
  -- if the call has not unwound.
  settled_lem :
      (p : ValueInitializer W V E) (o : ℕ) (w : W) (x : Phase V E)
      → IsGood p o w x
      → HasBegun x (p.values o)
      → p.is_locked o ≡ false
      → IsSettled (p.values o) ⊎ (x ≡ ended unwound)
  settled_lem p o w (inserting retries) g b f = absurd b
  settled_lem p o w (waiting i retries) g b f = absurd b
  settled_lem p o w checking (l, t) b f = absurd (ground (arith, l, f))
  settled_lem p o w evaluating (l, t) b f = absurd (ground (arith, l, f))
  settled_lem p o w (removing r) g b f = inl b
  settled_lem p o w (returning r) g b f = inl b
  settled_lem p o w (ended r) g b f = elim b [
    | inl s ↦ inl s
    | inr y ↦ inr (ap ended (outside_lem r y))
  ]

  -- A call whose waiter is in the table has begun.
  begun_lem :
      (p : ValueInitializer W V E) (o : ℕ) (w : W) (x : Phase V E)
      → IsGood p o w x
      → IsHolding x
      → HasBegun x (p.values o)
  begun_lem p o w (inserting retries) g a = absurd a
  begun_lem p o w (waiting i retries) g a = absurd a
  begun_lem p o w checking g a = tt
  begun_lem p o w evaluating g a = tt
  begun_lem p o w (removing r) (l, t, s, e) a = s
  begun_lem p o w (returning r) g a = absurd a
  begun_lem p o w (ended r) g a = inr a

  Owns-IsSettled :
      (p : ValueInitializer W V E) (o : ℕ) (w : W)
      → IsOrdered p
      → Owns p o w
      → p.is_locked o ≡ false
      → IsSettled (p.values o) ⊎ Poisoned p w
  Owns-IsSettled p o w h (c, k, q, b) f = elim (settled_lem p o c.key c.phase (h.good o c k) b f) [
    | inl s ↦ inl s
    | inr e ↦ inr (o, c, k, q, e)
  ]

module _ {W V E : Type 0} (dec : Discrete W) (p : ValueInitializer W V E) (h : IsOrdered p) (n : ℕ)
    (w : W) where
  unexpected_lem :
      (o retries : ℕ)
      → p.calls n ≡ some (record { key = w; phase = waiting o retries })
      → Poisoned p w
      → IsOrdered (enter p n w (ended unexpected_state))
  unexpected_lem o retries k y =
      enter-IsOrdered dec p h n w (waiting o retries) k tt (ended unexpected_state)
        (
          freed_now dec p h n w (waiting o retries) k tt unexpected_state,
          enter-Poisoned dec p h n w (waiting o retries) k tt (ended unexpected_state) y,
        )
        (λ b. absurd b) (λ a. a)

  -- What a call makes of the result of another one.
  read_lem :
      (o retries : ℕ) (value : WaiterValue V E)
      → p.calls n ≡ some (record { key = w; phase = waiting o retries })
      → IsSettled value ⊎ Poisoned p w
      → IsOrdered (enter p n w (read_waiter value retries))
  unfolding read_waiter
  read_lem o retries computing k s = elim s [
    | inl a ↦ absurd a
    | inr y ↦ unexpected_lem o retries k y
  ]
  read_lem o retries ready_none k s = elim s [
    | inl a ↦ absurd a
    | inr y ↦ unexpected_lem o retries k y
  ]
  read_lem o retries (ready (ok v)) k s =
      enter-IsOrdered dec p h n w (waiting o retries) k tt (ended (returned (read_existing v)))
        (freed_now dec p h n w (waiting o retries) k tt (returned (read_existing v)), tt)
        (λ b. absurd b) (λ a. a)
  read_lem o retries (ready (err e)) k s =
      enter-IsOrdered dec p h n w (waiting o retries) k tt (ended (returned (init_err e)))
        (freed_now dec p h n w (waiting o retries) k tt (returned (init_err e)), tt) (λ b. absurd b)
        (λ a. a)
  read_lem o retries init_closure_panicked k s = elim (Bool-cases (ltb (suc retries) max_retries)) [
    | inl b ↦ rw b (
        enter-IsOrdered dec p h n w (waiting o retries) k tt (inserting (suc retries))
          (
            locked_now dec p h n w (waiting o retries) k tt (inserting (suc retries)) refl,
            ground (arith, b),
          )
          (λ y. y) (λ a. a))
    | inr b ↦ rw b (
        enter-IsOrdered dec p h n w (waiting o retries) k tt (ended too_many_retries)
          (freed_now dec p h n w (waiting o retries) k tt too_many_retries, tt) (λ y. absurd y)
          (λ a. a))
  ]

  try_insert_waiter-Owns :
      (retries o : ℕ)
      → p.calls n ≡ some (record { key = w; phase = inserting retries })
      → p.waiters w ≡ some o
      → Owns (enter p n w (waiting o retries)) o w
  try_insert_waiter-Owns retries o k t =
      let (c, e, q, a) = h.held w o t in
      (
        c,
        update_other p.calls n (some (record { key = w; phase = waiting o retries })) o (λ d.
              (held_now dec p h n w (inserting retries) k tt w
                (subst (λ i. p.waiters w ≡ some i) d t)).1)
            ∙ e,
        q,
        begun_lem p o c.key c.phase (h.good o c e) a,
      )

  insert_lem :
      (retries : ℕ) (r : Option ℕ)
      → p.calls n ≡ some (record { key = w; phase = inserting retries })
      → p.waiters w ≡ r
      → IsOrdered (try_insert_waiter dec p n w retries r)
  insert_lem retries none k t =
      inserted-IsOrdered dec p h n w (inserting retries) k tt (λ a. a) (λ b. b) t
  insert_lem retries (some o) k t =
      enter-IsOrdered dec p h n w (inserting retries) k tt (waiting o retries)
        (
          locked_now dec p h n w (inserting retries) k tt (waiting o retries) refl,
          (this_call-IsGood dec p h n w (inserting retries) k tt).1,
          try_insert_waiter-Owns retries o k t,
        )
        (λ b. b) (λ a. a)

  init_end-IsExpected : (result : Result V E) → IsExpected (init_end result)
  init_end-IsExpected (ok v) = tt
  init_end-IsExpected (err e) = tt

  unwound_lem :
      (x : Phase V E) (k : p.calls n ≡ some (record { key = w; phase = x })) (u : IsUnfinished x)
      → IsOrdered (enter p n w (ended unwound))
  unwound_lem x k u =
      enter-IsOrdered dec p h n w x k u (ended unwound) (freed_now dec p h n w x k u unwound, tt)
        (λ b. inr tt) (λ a. tt)

  advance_lem :
      (x : Phase V E) (event : Event V E)
      → p.calls n ≡ some (record { key = w; phase = x })
      → IsFine (advance dec p n w x event)
  unfolding advance
  advance_lem (inserting retries) proceed k = insert_lem retries (p.waiters w) k refl
  advance_lem (waiting o retries) proceed k = elim (Bool-cases (p.is_locked o)) [
    | inl b ↦ rw b tt
    | inr b ↦
        let (l, m, q) = this_call-IsGood dec p h n w (waiting o retries) k tt in
        rw b (read_lem o retries (p.values o) k (Owns-IsSettled p o w h q b))
  ]
  advance_lem checking (got none) k =
      let (l, t) = this_call-IsGood dec p h n w checking k tt in
      enter-IsOrdered dec p h n w checking k tt evaluating
        (locked_now dec p h n w checking k tt evaluating refl, t) (λ b. b) (λ a. a)
  advance_lem checking (got (some v)) k =
      let (l, t) = this_call-IsGood dec p h n w checking k tt in
      publish-IsOrdered dec p h n w checking k tt (ready (ok v)) (returned (read_existing v)) tt t
        tt tt
  advance_lem evaluating (evaluated result) k =
      let (l, t) = this_call-IsGood dec p h n w evaluating k tt in
      publish-IsOrdered dec p h n w evaluating k tt (ready result) (init_end result) tt t tt
        (init_end-IsExpected result)
  advance_lem evaluating panicked k =
      let (l, t) = this_call-IsGood dec p h n w evaluating k tt in
      publish-IsOrdered dec p h n w evaluating k tt init_closure_panicked resumed tt t tt tt
  advance_lem (removing r) proceed k =
      let (l, t, s, e) = this_call-IsGood dec p h n w (removing r) k tt in
      removed-IsOrdered dec p h n w (removing r) k tt r t s e
  advance_lem (returning r) proceed k =
      let (l, s, e) = this_call-IsGood dec p h n w (returning r) k tt in
      enter-IsOrdered dec p h n w (returning r) k tt (ended r)
        (freed_now dec p h n w (returning r) k tt r, IsExpected-IsEnd (enter p n w (ended r)) w r e)
        (λ b. inl b) (λ a. absurd a)
  advance_lem (waiting o retries) unwinds k = elim (Bool-cases (p.is_locked o)) [
    | inl b ↦ rw b tt
    | inr b ↦ elim (Bool-cases (is_ready (p.values o))) [
      | inr y ↦ rw (b, y) tt
      | inl y ↦ rw (b, y) (unwound_lem (waiting o retries) k tt)
    ]
  ]
  advance_lem checking unwinds k = unwound_lem checking k tt
  advance_lem evaluating unwinds k = unwound_lem evaluating k tt
  advance_lem (inserting retries) unwinds k = tt
  advance_lem (removing r) unwinds k = tt
  advance_lem (returning r) unwinds k = tt
  advance_lem (inserting retries) (got v) k = tt
  advance_lem (inserting retries) (evaluated v) k = tt
  advance_lem (inserting retries) panicked k = tt
  advance_lem (waiting o retries) (got v) k = tt
  advance_lem (waiting o retries) (evaluated v) k = tt
  advance_lem (waiting o retries) panicked k = tt
  advance_lem checking proceed k = tt
  advance_lem checking (evaluated v) k = tt
  advance_lem checking panicked k = tt
  advance_lem evaluating proceed k = tt
  advance_lem evaluating (got v) k = tt
  advance_lem (removing r) (got v) k = tt
  advance_lem (removing r) (evaluated v) k = tt
  advance_lem (removing r) panicked k = tt
  advance_lem (returning r) (got v) k = tt
  advance_lem (returning r) (evaluated v) k = tt
  advance_lem (returning r) panicked k = tt
  advance_lem (ended r) event k = tt

module _ {W V E : Type 0} (dec : Discrete W) (p : ValueInitializer W V E) (h : IsOrdered p) where
  abbrev stepped : ℕ → Event V E → Option (Call W V E) → Option (ValueInitializer W V E)
  stepped n event none = none
  stepped n event (some c) = advance dec p n c.key c.phase event

  pub step_call-IsFine : (n : ℕ) (event : Event V E) → IsFine (step_call dec p n event)
  unfolding step_call
  step_call-IsFine n event = elim (Option-cases (p.calls n)) [
    | inl k ↦ subst (λ r. IsFine (stepped n event r)) (sym k) tt
    | inr (c, k) ↦
        subst (λ r. IsFine (stepped n event r)) (sym k)
          (advance_lem dec p h n c.key c.phase event k)
  ]

  -- A call that starts: no other one knows its waiter.
  started-IsOrdered :
      (n : ℕ) (w : W)
      → p.calls n ≡ none
      → IsOrdered (enter (record p { values = update p.values n computing }) n w (inserting 0))
  started-IsOrdered n w k =
      changed-IsOrdered p n w p.waiters (update p.values n computing) (inserting 0)
        (record {
          same_values = λ m d. update_other p.values n computing m d;
          kept = λ v m d t. t;
          back = λ v m d t. t;
          begun = λ v (c, e, q, b). absurd (none-ne-some c (sym k ∙ e));
          unended = λ d e. absurd (none-ne-some d (sym k ∙ e));
          own_good = (update_self p.is_locked n true, omega arith);
          own_held = λ v t. let (c, e, q, a) = h.held v n t in absurd (none-ne-some c (sym k ∙ e));
        })
        h

  abbrev started : ℕ → W → Option (Call W V E) → Option (ValueInitializer W V E)
  started n w (some c) = none
  started n w none =
      some (enter (record p { values = update p.values n computing }) n w (inserting 0))

  pub try_init_or_read-IsFine : (n : ℕ) (w : W) → IsFine (try_init_or_read p n w)
  unfolding try_init_or_read
  try_init_or_read-IsFine n w = elim (Option-cases (p.calls n)) [
    | inl k ↦ subst (λ r. IsFine (started n w r)) (sym k) (started-IsOrdered n w k)
    | inr (c, k) ↦ subst (λ r. IsFine (started n w r)) (sym k) tt
  ]
