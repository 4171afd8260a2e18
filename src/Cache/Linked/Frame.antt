-- ===== src/Cache/Linked/Frame.antt =====
-- src/sync/base_cache.rs: the parts of the state that the links are about.
use moka.Base.{ℕ, ◌≤◌, ◌≡◌, refl, sym, ◌∙◌, arith}
use moka.Cache.{State}
use moka.Cache.Linked.{IsLinked, IsCounted, ao_node, wo_node, is_admitted_at}

module _ {K V : Type 0} where
  -- What the links see of two states is the same.
  pub record SameLinks (s s' : State K V) : Type 0 where
    pub same_deques : s'.deques ≡ s.deques
    pub same_count : s'.counters.entry_count ≡ s.counters.entry_count
    pub same_ao : (i : ℕ) → ao_node s' i ≡ ao_node s i
    pub same_wo : (i : ℕ) → wo_node s' i ≡ wo_node s i
    pub same_admitted : (i : ℕ) → is_admitted_at s' i ≡ is_admitted_at s i
    pub later : s.next_addr ≤ s'.next_addr

  pub SameLinks-refl : (s : State K V) → SameLinks s s
  SameLinks-refl s = record {
    same_deques = refl;
    same_count = refl;
    same_ao = λ i. refl;
    same_wo = λ i. refl;
    same_admitted = λ i. refl;
    later = omega arith;
  }

  pub SameLinks-trans : (s s1 s2 : State K V) → SameLinks s s1 → SameLinks s1 s2 → SameLinks s s2
  SameLinks-trans s s1 s2 f g = record {
    same_deques = g.same_deques ∙ f.same_deques;
    same_count = g.same_count ∙ f.same_count;
    same_ao = λ i. g.same_ao i ∙ f.same_ao i;
    same_wo = λ i. g.same_wo i ∙ f.same_wo i;
    same_admitted = λ i. g.same_admitted i ∙ f.same_admitted i;
    later = omega (arith, f.later, g.later);
  }

  pub IsLinked-SameLinks : (s s' : State K V) → SameLinks s s' → IsLinked s → IsLinked s'
  IsLinked-SameLinks s s' f l = record {
    ao_distinct = rw (f.same_deques) l.ao_distinct;
    wo_distinct = rw (f.same_deques) l.wo_distinct;
    ao_owner = rw (f.same_deques) (λ a i h. f.same_ao i ∙ l.ao_owner a i h);
    ao_valid = rw (f.same_deques) (λ i a r h. l.ao_valid i a r (sym (f.same_ao i) ∙ h));
    wo_owner = rw (f.same_deques) (λ a i h. f.same_wo i ∙ l.wo_owner a i h);
    wo_valid = rw (f.same_deques) (λ i a h. l.wo_valid i a (sym (f.same_wo i) ∙ h));
    admitted_linked =
        λ i h g. l.admitted_linked i (sym (f.same_admitted i) ∙ h) (sym (f.same_ao i) ∙ g);
    unadmitted_free = λ i h.
        let (x, y) = l.unadmitted_free i (sym (f.same_admitted i) ∙ h) in
        (f.same_ao i ∙ x, f.same_wo i ∙ y);
    ao_fresh = rw (f.same_deques) (λ a h. l.ao_fresh a (omega (arith, f.later)));
    wo_fresh = rw (f.same_deques) (λ a h. l.wo_fresh a (omega (arith, f.later)));
    window_empty = rw (f.same_deques) l.window_empty;
    protected_empty = rw (f.same_deques) l.protected_empty;
  }

  pub IsCounted-SameLinks : (s s' : State K V) → SameLinks s s' → IsCounted s → IsCounted s'
  IsCounted-SameLinks s s' f h = rw (f.same_deques) (f.same_count ∙ h)
