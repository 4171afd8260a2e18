-- ===== src/Cache/Invariant/Policy.antt =====
-- src/sync/base_cache.rs: the invariant over `handle_admit`.
use moka.Base.{ℕ, suc, ◌≡◌, refl, sym, ap, subst, ◌∙◌, inl, inr, false, Bool-cases, length, arith}
use moka.Concurrent.{ValueEntry}
use moka.Cache.{State, Config}
use moka.Cache.Linked.{SameRest, IsLinked, IsCounted, IsPaired, is_admitted_at}
use moka.Cache.Linked.Frame.{IsLinked-SameLinks}
use moka.Cache.Linked.Timed.{IsTimed, SameButTimers}
use moka.Cache.{info_of, saturating_add}
use moka.Cache.Policy.{handle_admit, link_entry}
use moka.Cache.Linked.Link.{link_entry-IsLinked}
use moka.Cache.Linked.Retime.{update_timer_wheel-IsTimed}
use moka.Cache.Invariant.{AllPaired, IsConsistent, IsTimed-frame, Keeps}

module _ {K V : Type 0} where
  abbrev counted : State K V → ℕ → State K V
  counted s weight = record s { counters = saturating_add s.counters 1 weight }

  counted-IsLinked : (s : State K V) (weight : ℕ) → IsLinked s → IsLinked (counted s weight)
  counted-IsLinked s weight l = record {
    ao_distinct = l.ao_distinct;
    wo_distinct = l.wo_distinct;
    ao_owner = l.ao_owner;
    ao_valid = l.ao_valid;
    wo_owner = l.wo_owner;
    wo_valid = l.wo_valid;
    admitted_linked = l.admitted_linked;
    unadmitted_free = l.unadmitted_free;
    ao_fresh = l.ao_fresh;
    wo_fresh = l.wo_fresh;
    window_empty = l.window_empty;
    protected_empty = l.protected_empty;
  }

module _ {K V : Type 0} {P : K → ValueEntry V → Type 0} where
  pub IsConsistent-SameRest :
      (s s' : State K V)
      → SameRest s s'
      → IsTimed s
      → AllPaired P s.cache
      → IsLinked s'
      → IsCounted s'
      → IsConsistent P s'
  IsConsistent-SameRest s s' f t p l n = record {
    links = l;
    timers = IsTimed-frame s s' f.rest_wheel f.rest_timers f.rest_later t;
    count = n;
    paired = subst (AllPaired P) (sym f.rest_cache) p;
  }

  -- The linking of an entry that the counters count already.
  link_entry-IsConsistent :
      (c : Config) (s : State K V) (e : ValueEntry V)
      → IsLinked s
      → IsTimed s
      → AllPaired P s.cache
      → s.counters.entry_count ≡ suc (length s.deques.probation)
      → IsPaired e
      → is_admitted_at s e.info ≡ false
      → Keeps P (link_entry c s e)
  link_entry-IsConsistent c s e l t a n p new =
      let (s', k, l', n', f) = link_entry-IsLinked c s e l p new n in
      (s', k, IsConsistent-SameRest s s' f t a l' n')

  admit_alive :
      (c : Config) (s s1 : State K V) (e : ValueEntry V) (weight : ℕ)
      → IsConsistent P s
      → IsPaired e
      → is_admitted_at s e.info ≡ false
      → IsTimed s1
      → SameButTimers (counted s weight) s1
      → Keeps P (link_entry c s1 e)
  admit_alive c s s1 e weight h p new t f =
      link_entry-IsConsistent c s1 e
        (IsLinked-SameLinks (counted s weight) s1 f.same_links (counted-IsLinked s weight h.links))
        t (subst (AllPaired P) (sym f.same_cache) h.paired)
        (f.same_links.same_count
          ∙ omega (arith, h.count)
          ∙ ap (λ d. suc (length d.probation)) (sym f.same_links.same_deques))
        p (f.same_links.same_admitted e.info ∙ new)

  -- An alive entry that is not admitted.
  pub handle_admit-IsConsistent :
      (c : Config) (s : State K V) (e : ValueEntry V) (weight : ℕ)
      → IsConsistent P s
      → IsPaired e
      → is_admitted_at s e.info ≡ false
      → Keeps P (handle_admit c s e weight)
  unfolding handle_admit
  handle_admit-IsConsistent c s e weight h p new = elim (Bool-cases ((info_of s e).is_retired)) [
    | inl r ↦ (s, rw r refl, h)
    | inr r ↦
        let t0 = IsTimed-frame s (counted s weight) refl (λ i. refl) (omega arith) h.timers in
        let (s1, u, t1, f) = update_timer_wheel-IsTimed (counted s weight) t0 e in
        let (s2, k, h2) = admit_alive c s s1 e weight h p new t1 f in (s2, rw r (rw u k), h2)
  ]
