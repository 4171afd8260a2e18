-- ===== src/Cache/Linked/Link.antt =====
-- src/sync/base_cache.rs: the links over the linking of a new entry.
use moka.Base.{
  ℕ, suc, ◌≡◌, refl, inl, inr, [], ◌∷◌, true, false, none, some, arith, length, length-append, ◌==◌,
  if◌then◌else◌, Bool-cases, ℕ_discrete,
}
use moka.EntryInfo.{set_admitted}
use moka.Concurrent.{
  ValueEntry, main_probation, set_info, set_access_order_q_node, set_write_order_q_node,
}
use moka.Queue.{Queue, find, push_back}
use moka.Queue.Laws.{find-contains, push_back-Distinct}
use moka.Queue.Cursor.{find-push_back_ne, find-push_back_self}
use moka.Deques.{push_back_ao, push_back_wo, region_deque, set_region}
use moka.Cache.{State, Config, is_write_order_queue_enabled}
use moka.Cache.Policy.{link_entry}
use moka.Cache.Linked.{SameRest, IsLinked, IsCounted, IsPaired, is_admitted_at}

find-push_back :
    (a b i : ℕ) (q : Queue ℕ)
    → find a q ≡ none
    → find b (push_back a i q) ≡ (if a == b then some i else find b q)
find-push_back a b i q h = elim (ℕ_discrete a b) [
  | yes g ↦ ground (arith, g, find-push_back_self a i q (find-contains a q h))
  | no g ↦ ground (arith, g, find-push_back_ne a b i q)
]

module _ {K V : Type 0} (c : Config) (s : State K V) (e : ValueEntry V) (l : IsLinked s)
    (p : IsPaired e) (new : is_admitted_at s e.info ≡ false) where
  -- The state after an entry was linked, without and with the write-order deque.
  abbrev on : State K V
  on = record s {
    deques = record s.deques { probation = push_back s.next_addr e.info s.deques.probation };
    shared =
        set_info (set_access_order_q_node s.shared e.nodes (some (s.next_addr, main_probation)))
          e.info (set_admitted (s.shared.infos e.info) true);
    next_addr = suc (suc s.next_addr);
  }

  abbrev on_both : State K V
  on_both = record on {
    deques = record on.deques {
      write_order = push_back (suc s.next_addr) e.info s.deques.write_order;
    };
    shared =
        set_info
          (set_write_order_q_node
            (set_access_order_q_node s.shared e.nodes (some (s.next_addr, main_probation))) e.nodes
            (some (suc s.next_addr)))
          e.info (set_admitted (s.shared.infos e.info) true);
  }

  on_lem : is_write_order_queue_enabled c ≡ false → link_entry c s e ≡ some on
  unfolding link_entry push_back_ao push_back_wo region_deque set_region
  on_lem h = rw h refl

  on_both_lem : is_write_order_queue_enabled c ≡ true → link_entry c s e ≡ some on_both
  unfolding link_entry push_back_ao push_back_wo region_deque set_region
  on_both_lem h = rw h refl

  on-IsLinked : IsLinked on
  on-IsLinked =
      let (no_ao, no_wo) = l.unadmitted_free e.info new in
      record {
        ao_distinct =
            push_back-Distinct s.next_addr e.info s.deques.probation
              (find-contains s.next_addr s.deques.probation (l.ao_fresh s.next_addr (omega arith)))
              l.ao_distinct;
        wo_distinct = l.wo_distinct;
        ao_owner = λ b i f. ground (
          arith,
          find-push_back s.next_addr b e.info s.deques.probation,
          l.ao_fresh s.next_addr,
          l.ao_owner b i,
        );
        ao_valid = λ i b r f. ground (
          arith,
          find-push_back s.next_addr b e.info s.deques.probation,
          l.ao_fresh s.next_addr,
          l.ao_valid i b r,
        );
        wo_owner = λ b i f. ground (arith, l.wo_owner b i);
        wo_valid = λ i b f. ground (arith, l.wo_valid i b);
        admitted_linked = λ i f. ground (arith, l.admitted_linked i);
        unadmitted_free = λ i f. ground (arith, l.unadmitted_free i);
        ao_fresh = λ b f. ground (
          arith,
          find-push_back s.next_addr b e.info s.deques.probation,
          l.ao_fresh s.next_addr,
          l.ao_fresh b,
        );
        wo_fresh = λ b f. ground (arith, l.wo_fresh b);
        window_empty = l.window_empty;
        protected_empty = l.protected_empty;
      }

  on_both-IsLinked : IsLinked on_both
  on_both-IsLinked =
      let (no_ao, no_wo) = l.unadmitted_free e.info new in
      let b1 = suc s.next_addr in
      record {
        ao_distinct = on-IsLinked.ao_distinct;
        wo_distinct =
            push_back-Distinct b1 e.info s.deques.write_order
              (find-contains b1 s.deques.write_order (l.wo_fresh b1 (omega arith))) l.wo_distinct;
        ao_owner = λ b i f. ground (arith, on-IsLinked.ao_owner b i f);
        ao_valid = λ i b r f. ground (arith, on-IsLinked.ao_valid i b r);
        wo_owner = λ b i f.
            ground (
              arith,
              find-push_back b1 b e.info s.deques.write_order,
              l.wo_fresh b1,
              l.wo_owner b i,
            );
        wo_valid = λ i b f.
            ground (
              arith,
              find-push_back b1 b e.info s.deques.write_order,
              l.wo_fresh b1,
              l.wo_valid i b,
            );
        admitted_linked = λ i f. ground (arith, l.admitted_linked i);
        unadmitted_free = λ i f. ground (arith, l.unadmitted_free i);
        ao_fresh = on-IsLinked.ao_fresh;
        wo_fresh = λ b f.
            ground
              (arith, find-push_back b1 b e.info s.deques.write_order, l.wo_fresh b1, l.wo_fresh b);
        window_empty = l.window_empty;
        protected_empty = l.protected_empty;
      }

  pub link_entry-IsLinked :
      s.counters.entry_count ≡ suc (length s.deques.probation)
      → (s' : State K V) × (link_entry c s e ≡ some s') × IsLinked s' × IsCounted s' × SameRest s s'
  link_entry-IsLinked h =
      let count : s.counters.entry_count
          ≡ length (push_back s.next_addr e.info s.deques.probation) =
        ground (arith, length-append s.deques.probation ((s.next_addr, e.info) ∷ [])) in
      elim (Bool-cases (is_write_order_queue_enabled c)) [
        | inl w ↦ (
          on_both,
          on_both_lem w,
          on_both-IsLinked,
          count,
          record {
            rest_wheel = refl;
            rest_timers = λ i. ground arith;
            rest_cache = refl;
            rest_later = omega arith;
          },
        )
        | inr w ↦ (
          on,
          on_lem w,
          on-IsLinked,
          count,
          record {
            rest_wheel = refl;
            rest_timers = λ i. ground arith;
            rest_cache = refl;
            rest_later = omega arith;
          },
        )
      ]
