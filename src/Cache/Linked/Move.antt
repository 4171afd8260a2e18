-- ===== src/Cache/Linked/Move.antt =====
-- src/sync/base_cache.rs: the links over the moves within the deques.
use moka.Base.{ℕ, ◌≡◌, refl, sym, ◌∙◌, inl, inr, [], ◌∷◌, some, arith, length, Option-cases}
use moka.Queue.{Queue, find, unlink, move_to_back, move_front_to_back}
use moka.Queue.Laws.{Distinct, find-some-contains, move_to_back-Distinct}
use moka.Queue.Cursor.{find-move_to_back, length-move_to_back}
use moka.Deques.{Deques, move_to_back_ao, move_to_back_wo, region_deque, set_region}
use moka.Cache.{State}
use moka.Cache.Linked.{IsLinked, ao_node, wo_node}

-- A rearranged deque: each address once, each pointing to what it did, as many as there were.
pub record Moved (q q' : Queue ℕ) : Type 0 where
  pub still_distinct : Distinct q'
  pub same_find : (b : ℕ) → find b q' ≡ find b q
  pub same_length : length q' ≡ length q

pub Moved-refl : (q : Queue ℕ) → Distinct q → Moved q q
Moved-refl q d = record { still_distinct = d; same_find = λ b. refl; same_length = refl }

pub Moved-move_to_back : (a : ℕ) (q : Queue ℕ) → Distinct q → Moved q (move_to_back a q)
Moved-move_to_back a q d = record {
  still_distinct = move_to_back-Distinct a q d;
  same_find = λ b. find-move_to_back a b q d;
  same_length = length-move_to_back a q;
}

move_front-move :
    (a e : ℕ) (q : Queue ℕ) → move_front_to_back ((a, e) ∷ q) ≡ move_to_back a ((a, e) ∷ q)
unfolding move_front_to_back move_to_back find unlink
move_front-move a e q = ground arith

no_front : move_front_to_back {T = ℕ} [] ≡ []
unfolding move_front_to_back
no_front = refl

pub Moved-move_front_to_back : (q : Queue ℕ) → Distinct q → Moved q (move_front_to_back q)
Moved-move_front_to_back [] d = rw no_front (Moved-refl [] d)
Moved-move_front_to_back ((a, e) ∷ q) d =
    rw (move_front-move a e q) (Moved-move_to_back a ((a, e) ∷ q) d)

module _ {K V : Type 0} (s : State K V) (l : IsLinked s) where
  abbrev pub with_deques : Queue ℕ → Queue ℕ → State K V
  with_deques q r = record s { deques = record s.deques { probation = q; write_order = r } }

  -- Both deques rearranged.
  pub with_deques-IsLinked :
      (q r : Queue ℕ)
      → Moved s.deques.probation q
      → Moved s.deques.write_order r
      → IsLinked (with_deques q r)
  with_deques-IsLinked q r mq mr = record {
    ao_distinct = mq.still_distinct;
    wo_distinct = mr.still_distinct;
    ao_owner = λ a i h. l.ao_owner a i (sym (mq.same_find a) ∙ h);
    ao_valid = λ i a t h. let (x, y) = l.ao_valid i a t h in (x, mq.same_find a ∙ y);
    wo_owner = λ a i h. l.wo_owner a i (sym (mr.same_find a) ∙ h);
    wo_valid = λ i a h. mr.same_find a ∙ l.wo_valid i a h;
    admitted_linked = l.admitted_linked;
    unadmitted_free = l.unadmitted_free;
    ao_fresh = λ a h. mq.same_find a ∙ l.ao_fresh a h;
    wo_fresh = λ a h. mr.same_find a ∙ l.wo_fresh a h;
    window_empty = l.window_empty;
    protected_empty = l.protected_empty;
  }

  -- `move_to_back_ao` and `move_to_back_wo` follow no dangling pointer.
  pub move_to_back_ao_total :
      (i : ℕ)
      → (q : Queue ℕ) × (move_to_back_ao s.deques s.shared i
          ≡ some (record s.deques { probation = q }))
        × Moved s.deques.probation q
  unfolding move_to_back_ao region_deque set_region
  move_to_back_ao_total i = elim (Option-cases (ao_node s i)) [
    | inl h ↦ (
      s.deques.probation,
      rw (h, move_to_back_ao) refl,
      Moved-refl s.deques.probation l.ao_distinct,
    )
    | inr ((a, r), h) ↦
        let (region, at) = l.ao_valid i a r h in
        (
          move_to_back a s.deques.probation,
          ground (arith, h, region, find-some-contains a s.deques.probation i at),
          Moved-move_to_back a s.deques.probation l.ao_distinct,
        )
  ]

  pub move_to_back_wo-Moved :
      (d : Deques) (i : ℕ)
      → d.write_order ≡ s.deques.write_order
      → (r : Queue ℕ) × (move_to_back_wo d s.shared i ≡ record d { write_order = r })
        × Moved s.deques.write_order r
  unfolding move_to_back_wo
  move_to_back_wo-Moved d i w = elim (Option-cases (wo_node s i)) [
    | inl h ↦ (
      d.write_order,
      rw (h, move_to_back_wo) refl,
      rw w (Moved-refl s.deques.write_order l.wo_distinct),
    )
    | inr (b, h) ↦ (
      move_to_back b s.deques.write_order,
      ground (arith, h, w, find-some-contains b s.deques.write_order i (l.wo_valid i b h)),
      Moved-move_to_back b s.deques.write_order l.wo_distinct,
    )
  ]
