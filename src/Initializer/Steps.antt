-- ===== src/Initializer/Steps.antt =====
-- src/sync/value_initializer.rs: the steps of a call, one by one.
use mathlib.Core.Option.{some-injective, none-ne-some}
use moka.Base.{ℕ, ◌≡◌, ◌≢◌, refl, ap, subst, sym, ◌∙◌, true, false, Option, none, some}
use moka.Concurrent.{update}
use moka.Cache.Map.{ite-yes, ite-no}
use moka.Initializer.{
  WaiterValue, End, Phase, checking, removing, returning, ended, Call, ValueInitializer, has_lock,
  set_waiter, enter, publish, try_insert_waiter, remove_waiter,
}
use moka.Initializer.Safety.{
  IsSettled, IsExpected, HasBegun, IsHolding, IsUnfinished, Poisoned, Owns, IsGood, IsOrdered,
  update_self, update_other, changed-IsOrdered,
}

module _ {W V E : Type 0} (dec : Discrete W) (p : ValueInitializer W V E) (h : IsOrdered p) (n : ℕ)
    (w : W) (x : Phase V E) (k : p.calls n ≡ some (record { key = w; phase = x }))
    (u : IsUnfinished x) where
  pub this_call-IsGood : IsGood p n w x
  this_call-IsGood = h.good n (record { key = w; phase = x }) k

  this_call : (c : Call W V E) → p.calls n ≡ some c → record { key = w; phase = x } ≡ c
  this_call c e = some-injective (record { key = w; phase = x }) c (sym k ∙ e)

  begun_now : (v : W) → Owns p n v → (w ≡ v) × HasBegun x (p.values n)
  begun_now v (c, e, q, b) = (
    ap (λ y. y.key) (this_call c e) ∙ q,
    subst (λ y. HasBegun y.phase (p.values n)) (sym (this_call c e)) b,
  )

  unended_now : (c : Call W V E) → p.calls n ≡ some c → IsUnfinished c.phase
  unended_now c e = subst (λ y. IsUnfinished y.phase) (this_call c e) u

  pub enter-Poisoned : (x' : Phase V E) → Poisoned p w → Poisoned (enter p n w x') w
  enter-Poisoned x' (m, d, e, q, y) = (
    m,
    d,
    update_other p.calls n (some (record { key = w; phase = x' })) m
          (λ same. subst IsUnfinished y (unended_now d (subst (λ i. p.calls i ≡ some d) same e)))
        ∙ e,
    q,
    y,
  )

  pub held_now : (v : W) → p.waiters v ≡ some n → (w ≡ v) × IsHolding x
  held_now v t =
      let (c, e, q, a) = h.held v n t in
      (ap (λ y. y.key) (this_call c e) ∙ q, subst (λ y. IsHolding y.phase) (sym (this_call c e)) a)

  -- A step to a phase, in which table and values stay.
  pub enter-IsOrdered :
      (x' : Phase V E)
      → IsGood (enter p n w x') n w x'
      → (HasBegun x (p.values n) → HasBegun x' (p.values n))
      → (IsHolding x → IsHolding x')
      → IsOrdered (enter p n w x')
  enter-IsOrdered x' g b a =
      changed-IsOrdered p n w p.waiters p.values x'
        (record {
          same_values = λ m d. refl;
          kept = λ v m d t. t;
          back = λ v m d t. t;
          begun = λ v o. ((begun_now v o).0, b (begun_now v o).1);
          unended = unended_now;
          own_good = g;
          own_held = λ v t. ((held_now v t).0, a (held_now v t).1);
        })
        h

  pub freed_now : (r : End V E) → (enter p n w (ended r)).is_locked n ≡ false
  freed_now r = update_self p.is_locked n false

  pub locked_now : (x' : Phase V E) → has_lock x' ≡ true → (enter p n w x').is_locked n ≡ true
  locked_now x' e = update_self p.is_locked n (has_lock x') ∙ e

  pub publish-IsOrdered :
      (value : WaiterValue V E) (r : End V E)
      → IsHolding x
      → p.waiters w ≡ some n
      → IsSettled value
      → IsExpected r
      → IsOrdered (publish p n w value r)
  publish-IsOrdered value r a t s e =
      let settled = subst IsSettled (sym (update_self p.values n value)) s in
      changed-IsOrdered p n w p.waiters (update p.values n value) (removing r)
        (record {
          same_values = λ m d. update_other p.values n value m d;
          kept = λ v m d u. u;
          back = λ v m d u. u;
          begun = λ v o. ((begun_now v o).0, settled);
          unended = unended_now;
          own_good = (locked_now (removing r) refl, t, settled, e);
          own_held = λ v u. ((held_now v u).0, tt);
        })
        h

  set_same : (o : Option ℕ) → set_waiter dec p.waiters w o w ≡ o
  set_same o = ite-yes (dec w w) o (p.waiters w) refl

  set_other : (o : Option ℕ) (v : W) → w ≢ v → set_waiter dec p.waiters w o v ≡ p.waiters v
  set_other o v d = ite-no (dec w v) o (p.waiters v) d

  pub inserted-IsOrdered :
      (IsHolding x → ⊥)
      → (HasBegun x (p.values n) → ⊥)
      → p.waiters w ≡ none
      → IsOrdered (try_insert_waiter dec p n w 0 none)
  inserted-IsOrdered a b t =
      let table = set_waiter dec p.waiters w (some n) in
      changed-IsOrdered p n w table p.values checking
        (record {
          same_values = λ m d. refl;
          kept = λ v m d u. elim (dec w v) [
            | yes q ↦ absurd (none-ne-some m (sym t ∙ subst (λ j. p.waiters j ≡ some m) (sym q) u))
            | no q ↦ set_other (some n) v q ∙ u
          ];
          back = λ v m d u. elim (dec w v) [
            | yes q ↦ absurd (
                d (
                  sym (
                    some-injective n m
                      (sym (set_same (some n)) ∙ subst (λ j. table j ≡ some m) (sym q) u))))
            | no q ↦ sym (set_other (some n) v q) ∙ u
          ];
          begun = λ v o. absurd (b (begun_now v o).1);
          unended = unended_now;
          own_good = (locked_now checking refl, set_same (some n));
          own_held = λ v u. elim (dec w v) [
            | yes q ↦ (q, tt)
            | no q ↦ absurd (a (held_now v (sym (set_other (some n) v q) ∙ u)).1)
          ];
        })
        h

  pub removed-IsOrdered :
      (r : End V E)
      → p.waiters w ≡ some n
      → IsSettled (p.values n)
      → IsExpected r
      → IsOrdered (remove_waiter dec p n w r)
  removed-IsOrdered r t s e =
      let table = set_waiter dec p.waiters w none in
      changed-IsOrdered p n w table p.values (returning r)
        (record {
          same_values = λ m d. refl;
          kept = λ v m d u. elim (dec w v) [
            | yes q ↦
                absurd (
                  d (
                    sym (some-injective n m (sym t ∙ subst (λ j. p.waiters j ≡ some m) (sym q) u))))
            | no q ↦ set_other none v q ∙ u
          ];
          back = λ v m d u. elim (dec w v) [
            | yes q ↦
                absurd
                  (none-ne-some m (sym (set_same none) ∙ subst (λ j. table j ≡ some m) (sym q) u))
            | no q ↦ sym (set_other none v q) ∙ u
          ];
          begun = λ v o. ((begun_now v o).0, s);
          unended = unended_now;
          own_good = (locked_now (returning r) refl, s, e);
          own_held = λ v u. elim (dec w v) [
            | yes q ↦
                absurd
                  (none-ne-some n (sym (set_same none) ∙ subst (λ j. table j ≡ some n) (sym q) u))
            | no q ↦ absurd (q (held_now v (sym (set_other none v q) ∙ u)).0)
          ];
        })
        h
