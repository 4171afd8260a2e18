-- ===== src/Cache/Invariant/Removal.antt =====
-- src/sync/base_cache.rs: the invariant over the removals.
use moka.Base.{
  ℕ, ◌≡◌, refl, ap, ◌∙◌, inl, inr, true, false, Option, some, Option-cases, Bool-cases, arith,
}
use moka.Concurrent.{ValueEntry}
use moka.Cache.{State}
use moka.Cache.Policy.{store_policy_gen}
use moka.Cache.Linked.{IsPaired, ao_node, is_admitted_at}
use moka.Cache.Linked.Timed.{SameButTimers}
use moka.Concurrent.{unset_q_nodes}
use moka.Cache.Policy.{
  unlink_admitted, unlink_entry, handle_remove_without_timer_wheel, drop_timer, handle_remove,
  handle_remove_with_deques,
}
use moka.Cache.Timer.{update_timer_wheel}
use moka.Cache.Linked.Unlink.{unlink_admitted-IsLinked}
use moka.Cache.Linked.Retime.{update_timer_wheel-IsTimed, drop_timer-IsTimed}
use moka.Cache.Invariant.{
  IsConsistent, Harmless, IsConsistent-Harmless, IsConsistent-SameButTimers,
  store_policy_gen-Harmless, Removes, AdmitsNone,
}
use moka.Cache.Invariant.Policy.{IsConsistent-SameRest}

module _ {K V : Type 0} where
  pub AdmitsNone-trans :
      (s s1 s2 : State K V) → AdmitsNone s s1 → AdmitsNone s1 s2 → AdmitsNone s s2
  AdmitsNone-trans s s1 s2 f g i n = g i (f i n)

  pub AdmitsNone-Harmless : (s s' : State K V) → Harmless s s' → AdmitsNone s s'
  AdmitsNone-Harmless s s' f i n = f.same_links.same_admitted i ∙ n

  AdmitsNone-SameButTimers : (s s' : State K V) → SameButTimers s s' → AdmitsNone s s'
  AdmitsNone-SameButTimers s s' f i n = f.same_links.same_admitted i ∙ n

module _ {K V : Type 0} {P : K → ValueEntry V → Type 0} where
  module _ (s : State K V) (e : ValueEntry V) (h : IsConsistent P s) (p : IsPaired e) where
    unadmitted-Harmless :
        is_admitted_at s e.info ≡ false
        → Harmless s (record s { shared = unset_q_nodes s.shared e.nodes })
    unadmitted-Harmless n =
        let (no_ao, no_wo) = h.links.unadmitted_free e.info n in
        record {
          same_links = record {
            same_deques = refl;
            same_count = refl;
            same_ao = λ i. grind arith;
            same_wo = λ i. grind arith;
            same_admitted = λ i. refl;
            later = omega arith;
          };
          same_wheel = refl;
          same_timers = λ i. grind arith;
          still_paired = λ Q x. x;
        }

    unlink_admitted-Removes : is_admitted_at s e.info ≡ true → Removes P s (unlink_admitted s e)
    unlink_admitted-Removes n = elim (Option-cases (ao_node s e.info)) [
      | inl x ↦ absurd (h.links.admitted_linked e.info n x)
      | inr ((a, r), x) ↦
          let (region, at) = h.links.ao_valid e.info a r x in
          let (s', k, l, m, f, d) =
            unlink_admitted-IsLinked s e h.links p a (x ∙ ap (λ y. some (a, y)) region) h.count in
          (s', k, IsConsistent-SameRest s s' f h.timers h.paired l m, d)
    ]

    pub unlink_entry-Removes : Removes P s (unlink_entry s e)
    unfolding unlink_entry
    unlink_entry-Removes = elim (Bool-cases (is_admitted_at s e.info)) [
      | inl n ↦ let (s', k, h', d) = unlink_admitted-Removes n in (s', rw n k, h', d)
      | inr n ↦
          let s1 = record s { shared = unset_q_nodes s.shared e.nodes } in
          let f = unadmitted-Harmless n in
          (s1, rw n refl, IsConsistent-Harmless s s1 f h, AdmitsNone-Harmless s s1 f)
    ]

    pub handle_remove_without_timer_wheel-Removes :
        (gen : Option ℕ) → Removes P s (handle_remove_without_timer_wheel s e gen)
    unfolding handle_remove_without_timer_wheel
    handle_remove_without_timer_wheel-Removes gen =
        let (s1, k, h1, d) = unlink_entry-Removes in
        let f = store_policy_gen-Harmless s1 e gen in
        let s2 = store_policy_gen s1 e gen in
        (
          s2,
          rw k refl,
          IsConsistent-Harmless s1 s2 f h1,
          AdmitsNone-trans s s1 s2 d (AdmitsNone-Harmless s1 s2 f),
        )

    pub drop_timer-Removes : Removes P s (drop_timer s e)
    drop_timer-Removes =
        let (s1, k, t, f) = drop_timer-IsTimed s h.timers e in
        (s1, k, IsConsistent-SameButTimers s s1 f t h, AdmitsNone-SameButTimers s s1 f)

    pub update_timer_wheel-Removes : Removes P s (update_timer_wheel s e)
    update_timer_wheel-Removes =
        let (s1, k, t, f) = update_timer_wheel-IsTimed s h.timers e in
        (s1, k, IsConsistent-SameButTimers s s1 f t h, AdmitsNone-SameButTimers s s1 f)

  module _ (s : State K V) (e : ValueEntry V) (h : IsConsistent P s) (p : IsPaired e) where
    pub handle_remove-Removes : (gen : Option ℕ) → Removes P s (handle_remove s e gen)
    unfolding handle_remove
    handle_remove-Removes gen =
        let (s1, k, h1, d1) = drop_timer-Removes s e h p in
        let (s2, k2, h2, d2) = handle_remove_without_timer_wheel-Removes s1 e h1 p gen in
        (s2, rw k k2, h2, AdmitsNone-trans s s1 s2 d1 d2)

    pub handle_remove_with_deques-Removes : Removes P s (handle_remove_with_deques s e)
    unfolding handle_remove_with_deques
    handle_remove_with_deques-Removes =
        let (s1, k, h1, d1) = drop_timer-Removes s e h p in
        let (s2, k2, h2, d2) = unlink_entry-Removes s1 e h1 p in
        (s2, rw k k2, h2, AdmitsNone-trans s s1 s2 d1 d2)
