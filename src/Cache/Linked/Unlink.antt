-- ===== src/Cache/Linked/Unlink.antt =====
-- src/sync/base_cache.rs: the links over the unlinking of an entry.
use moka.Base.{
  ℕ, ◌≡◌, refl, inl, inr, false, none, some, arith, length, ◌==◌, if◌then◌else◌, Option-cases,
  ℕ_discrete,
}
use moka.EntryInfo.{set_admitted}
use moka.Concurrent.{
  ValueEntry, main_probation, set_info, set_access_order_q_node, set_write_order_q_node,
}
use moka.Queue.{Queue, find, unlink}
use moka.Queue.Laws.{Distinct, find-some-contains, unlink-Distinct, length-unlink}
use moka.Queue.Cursor.{find-unlink_ne, find-unlink_self}
use moka.Deques.{unlink_ao, unlink_wo, region_deque, set_region}
use moka.Cache.{State, info_of, counters_sub}
use moka.Cache.Policy.{unlink_admitted}
use moka.Cache.Linked.{SameRest, IsLinked, IsCounted, IsPaired, ao_node, wo_node, is_admitted_at}

-- `find` after `unlink`, at either address.
find-unlink :
    (a b : ℕ) (q : Queue ℕ) → Distinct q → find b (unlink a q) ≡ (if a == b then none else find b q)
find-unlink a b q d = elim (ℕ_discrete a b) [
  | yes h ↦ ground (arith, h, find-unlink_self a q d)
  | no h ↦ ground (arith, h, find-unlink_ne a b q h)
]

module _ {K V : Type 0} (s : State K V) (e : ValueEntry V) (l : IsLinked s) (p : IsPaired e) (a : ℕ)
    (here : ao_node s e.info ≡ some (a, main_probation)) where
  -- The state after an admitted entry was taken off.
  abbrev off : State K V
  off = record s {
    deques = record s.deques { probation = unlink a s.deques.probation };
    shared =
        set_access_order_q_node (set_info s.shared e.info (set_admitted (info_of s e) false))
          e.nodes none;
    counters = counters_sub s.counters 1 (info_of s e).policy_weight;
  }

  abbrev off_both : ℕ → State K V
  off_both b = record off {
    deques = record off.deques { write_order = unlink b s.deques.write_order };
    shared = set_write_order_q_node off.shared e.nodes none;
  }

  off_lem : wo_node s e.info ≡ none → unlink_admitted s e ≡ some off
  unfolding unlink_admitted unlink_ao unlink_wo region_deque set_region
  off_lem w = grind (arith, find-some-contains a s.deques.probation e.info)

  off_both_lem : (b : ℕ) → wo_node s e.info ≡ some b → unlink_admitted s e ≡ some (off_both b)
  unfolding unlink_admitted unlink_ao unlink_wo region_deque set_region
  off_both_lem b w = grind (
    arith,
    find-some-contains a s.deques.probation e.info,
    find-some-contains b s.deques.write_order e.info,
  )

  off-IsLinked : wo_node s e.info ≡ none → IsLinked off
  off-IsLinked w = record {
    ao_distinct = unlink-Distinct a s.deques.probation l.ao_distinct;
    wo_distinct = l.wo_distinct;
    ao_owner = λ b i f. ground (
      arith,
      find-unlink a b s.deques.probation l.ao_distinct,
      l.ao_owner b i,
      l.ao_valid e.info a main_probation here,
    );
    ao_valid = λ i b r f. ground (
      arith,
      find-unlink a b s.deques.probation l.ao_distinct,
      l.ao_valid i b r,
      l.ao_valid e.info a main_probation here,
    );
    wo_owner = λ b i f. ground (arith, l.wo_owner b i);
    wo_valid = λ i b f. ground (arith, l.wo_valid i b);
    admitted_linked = λ i f. ground (arith, l.admitted_linked i);
    unadmitted_free = λ i f. ground (arith, l.unadmitted_free i, w);
    ao_fresh =
        λ b f. ground (arith, find-unlink a b s.deques.probation l.ao_distinct, l.ao_fresh b f);
    wo_fresh = l.wo_fresh;
    window_empty = l.window_empty;
    protected_empty = l.protected_empty;
  }

  off_both-IsLinked : (b : ℕ) → wo_node s e.info ≡ some b → IsLinked (off_both b)
  off_both-IsLinked b w =
      let (region, at) = l.ao_valid e.info a main_probation here in
      let own = l.wo_valid e.info b w in
      record {
        ao_distinct = unlink-Distinct a s.deques.probation l.ao_distinct;
        wo_distinct = unlink-Distinct b s.deques.write_order l.wo_distinct;
        ao_owner = λ c i f.
            ground (arith, find-unlink a c s.deques.probation l.ao_distinct, l.ao_owner c i, at);
        ao_valid = λ i c r f.
            ground (arith, find-unlink a c s.deques.probation l.ao_distinct, l.ao_valid i c r, at);
        wo_owner = λ c i f.
            ground (arith, find-unlink b c s.deques.write_order l.wo_distinct, l.wo_owner c i, own);
        wo_valid = λ i c f.
            ground (arith, find-unlink b c s.deques.write_order l.wo_distinct, l.wo_valid i c, own);
        admitted_linked = λ i f. ground (arith, l.admitted_linked i);
        unadmitted_free = λ i f. ground (arith, l.unadmitted_free i, w);
        ao_fresh =
            λ c f. ground (arith, find-unlink a c s.deques.probation l.ao_distinct, l.ao_fresh c f);
        wo_fresh = λ c f.
            ground (arith, find-unlink b c s.deques.write_order l.wo_distinct, l.wo_fresh c f);
        window_empty = l.window_empty;
        protected_empty = l.protected_empty;
      }

  off_count : IsCounted s → off.counters.entry_count ≡ length off.deques.probation
  off_count h = ground (
    arith,
    length-unlink a s.deques.probation (
        find-some-contains a s.deques.probation e.info (l.ao_valid e.info a main_probation here).1),
  )

  pub unlink_admitted-IsLinked :
      IsCounted s
      → (s' : State K V) × (unlink_admitted s e ≡ some s')
        × IsLinked s'
        × IsCounted s'
        × SameRest s s'
        × ((i : ℕ) → is_admitted_at s i ≡ false → is_admitted_at s' i ≡ false)
  unlink_admitted-IsLinked h = elim (Option-cases (wo_node s e.info)) [
    | inl w ↦ (
      off,
      off_lem w,
      off-IsLinked w,
      off_count h,
      record {
        rest_wheel = refl;
        rest_timers = λ i. ground arith;
        rest_cache = refl;
        rest_later = omega arith;
      },
      λ i n. ground arith,
    )
    | inr (b, w) ↦ (
      off_both b,
      off_both_lem b w,
      off_both-IsLinked b w,
      off_count h,
      record {
        rest_wheel = refl;
        rest_timers = λ i. ground arith;
        rest_cache = refl;
        rest_later = omega arith;
      },
      λ i n. ground arith,
    )
  ]
