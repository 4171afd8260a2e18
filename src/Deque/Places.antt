-- ===== src/Deque/Places.antt =====
-- src/common/deque.rs: the operations on a node between two lists of linked nodes.
use moka.Base.{
  ℕ, ◌-◌, ◌≡◌, refl, sym, ap, subst, ◌∙◌, inl, inr, [], ◌∷◌, ◌++◌, true, false, Option, none, some,
  arith, ◌==◌, ◌>>=◌, length, length-append, Bool-cases,
}
use moka.Queue
use moka.Queue.{Queue, find}
use moka.Queue.Laws.{Distinct, contains-append, move_to_back-Distinct}
use moka.Queue.Cursor.{absent_before, move_to_back_split}
use moka.Deque.{
  Deque, DeqNode, DeqCursor, at_node, at_end, Heap, put, is_tail, set_next, set_front, clear_node,
  unlink, move_to_back, close_front, append_node,
}
use moka.Deque.Segment.{
  front, back, Linked, Linked-Agree, differs, Agree-put, Linked-append, front-append, back-append,
  back-contains, set_next-back, set_prev-front,
}
use moka.Deque.Parts.{
  CursorIn, Represents, set_front_lem, at_place, joined-Distinct, bypass_lem, left_lem,
}

module _ {T : Type 0} where
  -- A list around an address that it has.
  pub split_at :
      (a : ℕ) (e : T) (q : Queue T)
      → find a q ≡ some e
      → (p : Queue T) × (r : Queue T) × (q ≡ p ++ (a, e) ∷ r)
  unfolding find
  split_at a e [] f = cc
  split_at a e ((b, x) ∷ q) f = elim (Bool-cases (b == a)) [
    | inl w ↦ ([], q, ground (arith, w, f))
    | inr w ↦
        let (p, r, k) = split_at a e q (ground (arith, w, f)) in
        ((b, x) ∷ p, r, ap (λ y. (b, x) ∷ y) k)
  ]

  module _ (d : Deque) (h : Heap T) (a : ℕ) (e : T) (p r : Queue T)
      (l : Represents d h (p ++ (a, e) ∷ r)) where
    pub unlink_at :
        (d' : Deque) × (h' : Heap T) × (unlink d h a ≡ some (d', h'))
        × Represents d' h' (p ++ r)
        × (h' a ≡ some (record { next = none; prev = none; element = e }))
    unfolding unlink clear_node
    unlink_at =
        let (c, k1, ci, l1) = left_lem d h a e p r l in
        let d1 = record d { cursor = c } in
        let (lp, la, lr, dp, dr, x, np, nr, t, hd) = at_place d1 h a e p r l1 in
        let (h2, k2, m, n, f) = bypass_lem d1 h a e p r l1 in
        let h3 = put h2 a (record { next = none; prev = none; element = e }) in
        let linked = Linked-append h2 none none p r m n in
        let absent : Queue.contains a (p ++ r) ≡ false =
          ground (arith, contains-append a p r, np, nr) in
        (
          record d1 { head = front p (front r none); tail = back (back none p) r; len = d.len - 1 },
          h3,
          rw k1 (rw k2 (rw f refl)),
          record {
            linked =
                Linked-Agree h2 h3 none none (p ++ r) (λ b w. ground (arith, w, absent)) linked;
            head = sym (front-append p r none);
            tail = sym (back-append none p r);
            len = ground (arith, l.len, length-append p r, length-append p ((a, e) ∷ r));
            distinct = joined-Distinct d h a e p r l;
            cursor_in = ci;
          },
          ground arith,
        )

  -- `move_to_back` of a node with others behind it.
  module _ (d : Deque) (h : Heap T) (a b : ℕ) (e f : T) (p r : Queue T)
      (l : Represents d h (p ++ (a, e) ∷ (b, f) ∷ r)) where
    not_tail : is_tail d a ≡ false
    not_tail =
        let (lp, la, lr, dp, dr, x, np, nr, t, hd) = at_place d h a e p ((b, f) ∷ r) l in
        let (y, k, c) = back-contains (some a) b f r in rw (t ∙ k) (differs a y ((b, f) ∷ r) nr c)

    close_lem :
        (c : Deque) (g : Heap T) (prev : Option ℕ)
        → close_front c g prev (some b) ≡ set_front c g prev (some b)
    unfolding close_front set_front
    close_lem c g none = refl
    close_lem c g (some x) = refl

    append_runs :
        (c : Deque) (g g' : Heap T) (n : DeqNode T) (y : ℕ)
        → g a ≡ some n
        → c.tail ≡ some y
        → set_next (put g a (record n { next = none; prev = c.tail })) y (some a) ≡ some g'
        → append_node c g a ≡ some (record c { tail = some a }, g')
    unfolding append_node
    append_runs c g g' n y k t s = rw k (
        ap
          (λ x. do
            y ← x
            g2 ← set_next (put g a (record n { next = none; prev = c.tail })) y (some a)
            some (record c { tail = some a }, g2))
          t
        ∙ rw s refl)

    -- The nodes around the one that moves, when it has become the tail.
    append_lem :
        (c : Deque) (g : Heap T)
        → c.tail ≡ back none ((b, f) ∷ r)
        → Linked g none p (some b)
        → Linked g (back none p) ((b, f) ∷ r) none
        → (n : DeqNode T) → g a ≡ some n
        → n.element ≡ e
        → (g' : Heap T) × (append_node c g a ≡ some (record c { tail = some a }, g'))
          × Linked g' none (p ++ (((b, f) ∷ r) ++ (a, e) ∷ [])) none
    append_lem c g t lp lr n k ke =
        let (lp0, la, lr0, dp, dr, x, np, nr, t0, hd) = at_place d h a e p ((b, f) ∷ r) l in
        let m : DeqNode T = record n { next = none; prev = c.tail } in
        let g1 = put g a m in
        let lr1 =
          Linked-Agree g g1 (back none p) none ((b, f) ∷ r) (Agree-put g a m ((b, f) ∷ r) nr) lr in
        let lp1 = Linked-Agree g g1 none (some b) p (Agree-put g a m p np) lp in
        let (y, g2, ky, s, l2, fr, cy) =
          set_next-back g1 (back none p) none (some a) b f r dr lr1 in
        let lp2 = Linked-Agree g1 g2 none (some b) p (λ z w. fr z (x z w)) lp1 in
        let node = fr a nr ∙ put_node c g n t ke in
        (
          g2,
          append_runs c g g2 n y k (t ∙ ky) s,
          Linked-append g2 none none p (((b, f) ∷ r) ++ (a, e) ∷ []) lp2
              (Linked-append g2 (back none p) none ((b, f) ∷ r) ((a, e) ∷ []) l2 (node, tt)),
        )
      where
        put_node :
            (c : Deque) (g : Heap T) (n : DeqNode T)
            → c.tail ≡ back none ((b, f) ∷ r)
            → n.element ≡ e
            → put g a (record n { next = none; prev = c.tail }) a
              ≡ some (record { next = none; prev = back none ((b, f) ∷ r); element = e })
        put_node c g n t ke = rw (t, ke) (ground arith)

    pub move_at :
        (d' : Deque) × (h' : Heap T) × (move_to_back d h a ≡ some (d', h'))
        × Represents d' h' (p ++ (((b, f) ∷ r) ++ (a, e) ∷ []))
    unfolding move_to_back
    move_at =
        let (c, k1, ci, l1) = left_lem d h a e p ((b, f) ∷ r) l in
        let d1 = record d { cursor = c } in
        let (lp, la, lr, dp, dr, x, np, nr, t, hd) = at_place d1 h a e p ((b, f) ∷ r) l1 in
        let (h1, k2, l2, g1) = set_front_lem d1 h (some a) (some b) p dp lp hd in
        let lr1 = Linked-Agree h h1 (some a) none ((b, f) ∷ r) (λ y w. g1 y (apart y x w)) lr in
        let (h2, k3, l3, g2) = set_prev-front h1 (some a) none (back none p) b f r dr lr1 in
        let d2 = record d1 { head = front p (some b) } in
        let lp2 = Linked-Agree h1 h2 none (some b) p (λ y w. g2 y (x y w)) l2 in
        let n : DeqNode T = record { next = some b; prev = back none p; element = e } in
        let (h3, k4, l4) = append_lem d2 h2 t lp2 l3 n (g2 a nr ∙ g1 a np ∙ la) refl in
        (
          record d2 { tail = some a },
          h3,
          rw not_tail (rw k1 (rw la (rw (close_lem d1 h (back none p) ∙ k2) (rw k3 k4)))),
          record {
            linked = l4;
            head = front_same p;
            tail = tail_is;
            len = len_is;
            distinct = distinct_is;
            cursor_in = cursor_stays c ci;
          },
        )
      where
        apart :
            (y : ℕ)
            → ((z : ℕ) → Queue.contains z p ≡ true → Queue.contains z ((b, f) ∷ r) ≡ false)
            → Queue.contains y ((b, f) ∷ r) ≡ true
            → Queue.contains y p ≡ false
        apart y x w = ground (arith, x y, w)

        front_same :
            (p : Queue T) → front p (some b) ≡ front (p ++ (((b, f) ∷ r) ++ (a, e) ∷ [])) none
        front_same [] = refl
        front_same (x ∷ p) = refl

        tail_is : some a ≡ back none (p ++ (((b, f) ∷ r) ++ (a, e) ∷ []))
        tail_is = sym (
            back-append none p (((b, f) ∷ r) ++ (a, e) ∷ [])
            ∙ back-append (back none p) ((b, f) ∷ r) ((a, e) ∷ []))

        len_is : d.len ≡ length (p ++ (((b, f) ∷ r) ++ (a, e) ∷ []))
        len_is = ground (
          arith,
          l.len,
          length-append p ((a, e) ∷ (b, f) ∷ r),
          length-append p (((b, f) ∷ r) ++ (a, e) ∷ []),
          length-append ((b, f) ∷ r) ((a, e) ∷ []),
        )

        distinct_is : Distinct (p ++ (((b, f) ∷ r) ++ (a, e) ∷ []))
        distinct_is =
            subst Distinct
              (move_to_back_split a e p ((b, f) ∷ r) (absent_before a e p ((b, f) ∷ r) l.distinct))
              (move_to_back-Distinct a (p ++ (a, e) ∷ (b, f) ∷ r) l.distinct)

        cursor_stays :
            (c : Option DeqCursor)
            → CursorIn c (p ++ (b, f) ∷ r)
            → CursorIn c (p ++ (((b, f) ∷ r) ++ (a, e) ∷ []))
        cursor_stays none i = tt
        cursor_stays (some at_end) i = tt
        cursor_stays (some (at_node y)) i = ground (
          arith,
          i,
          contains-append y p ((b, f) ∷ r),
          contains-append y p (((b, f) ∷ r) ++ (a, e) ∷ []),
          contains-append y ((b, f) ∷ r) ((a, e) ∷ []),
        )
