-- ===== src/Deque/Refines.antt =====
-- src/common/deque.rs: the operations on the linked nodes against those of the list view.
use moka.Base.{
  ℕ, suc, ◌≡◌, refl, sym, ap, subst, ◌∙◌, [], ◌∷◌, ◌++◌, true, false, Option, none, some, arith,
  ◌>>=◌, length-append,
}
use moka.Queue
use moka.Queue.{Queue, find}
use moka.Queue.Laws.{contains-append, push_back-Distinct}
use moka.Queue.Cursor.{absent_before, unlink_split, move_to_back_split}
use moka.Deque.{
  Deque, DeqNode, DeqCursor, at_node, at_end, Heap, put, is_tail, set_front, unlink, push_back,
  move_to_back, move_front_to_back,
}
use moka.Deque.Segment.{
  front, back, Linked-Agree, Agree-put, Linked-append, front-append, back-append,
}
use moka.Deque.Parts.{CursorIn, Represents, set_front_lem}
use moka.Deque.Places.{split_at, unlink_at, move_at}

module _ {T : Type 0} where
  -- An operation succeeds in a deque of the nodes `q`.
  abbrev pub Yields : Option (Deque × Heap T) → Queue T → Type 0
  Yields r q = (d : Deque) × (h : Heap T) × (r ≡ some (d, h)) × Represents d h q

  -- Unlinking a node of the deque.
  pub unlink-Represents :
      (d : Deque) (h : Heap T) (a : ℕ) (e : T) (q : Queue T)
      → Represents d h q
      → find a q ≡ some e
      → Yields (unlink d h a) (Queue.unlink a q)
  unlink-Represents d h a e q l f =
      let (p, r, k) = split_at a e q f in
      let l1 = subst (Represents d h) k l in
      let (d', h', u, l2, cleared) = unlink_at d h a e p r l1 in
      let joined =
        ap (Queue.unlink a) k ∙ unlink_split a e p r (absent_before a e p r l1.distinct) in
      (d', h', u, subst (Represents d' h') (sym joined) l2)

  move_last :
      (d : Deque) (h : Heap T) (a : ℕ) (e : T) (p : Queue T)
      → Represents d h (p ++ (a, e) ∷ [])
      → move_to_back d h a ≡ some (d, h)
  unfolding move_to_back
  move_last d h a e p l =
      let t : is_tail d a ≡ true = rw (l.tail ∙ back-append none p ((a, e) ∷ [])) (ground arith) in
      rw t refl

  move_split :
      (d : Deque) (h : Heap T) (a : ℕ) (e : T) (p r : Queue T)
      → Represents d h (p ++ (a, e) ∷ r)
      → Yields (move_to_back d h a) (p ++ (r ++ (a, e) ∷ []))
  move_split d h a e p [] l = (d, h, move_last d h a e p l, l)
  move_split d h a e p ((b, f) ∷ r) l = move_at d h a b e f p r l

  -- Moving a node of the deque to its back.
  pub move_to_back-Represents :
      (d : Deque) (h : Heap T) (a : ℕ) (e : T) (q : Queue T)
      → Represents d h q
      → find a q ≡ some e
      → Yields (move_to_back d h a) (Queue.move_to_back a q)
  move_to_back-Represents d h a e q l f =
      let (p, r, k) = split_at a e q f in
      let l1 = subst (Represents d h) k l in
      let moved =
        ap (Queue.move_to_back a) k
        ∙ move_to_back_split a e p r (absent_before a e p r l1.distinct) in
      subst (Yields (move_to_back d h a)) (sym moved) (move_split d h a e p r l1)

  abbrev front_after : Deque → Heap T → Option ℕ → Option (Deque × Heap T)
  front_after d h none = some (d, h)
  front_after d h (some a) = move_to_back d h a

  pub move_front_to_back-Represents :
      (d : Deque) (h : Heap T) (q : Queue T)
      → Represents d h q
      → Yields (move_front_to_back d h) (Queue.move_front_to_back q)
  unfolding move_front_to_back Queue.move_front_to_back
  move_front_to_back-Represents d h [] l = (d, h, ap (front_after d h) l.head, l)
  move_front_to_back-Represents d h ((a, e) ∷ r) l =
      let (d', h', k, l') = move_split d h a e [] r l in
      (d', h', ap (front_after d h) l.head ∙ k, l')

  -- Pushing a node that is not of the deque.
  pub push_back-Represents :
      (d : Deque) (h : Heap T) (a : ℕ) (n : DeqNode T) (q : Queue T)
      → Represents d h q
      → h a ≡ some n
      → Queue.contains a q ≡ false
      → Yields (push_back d h a) (Queue.push_back a n.element q)
  unfolding push_back
  push_back-Represents d h a n q l k u =
      let m : DeqNode T = record n { next = none; prev = d.tail } in
      let h1 = put h a m in
      let l1 = Linked-Agree h h1 none none q (Agree-put h a m q u) l.linked in
      let (h2, k2, l2, g2) = set_front_lem d h1 none (some a) q l.distinct l1 l.head in
      let node = g2 a u ∙ node_at_tail in
      (
        record d { head = front q (some a); tail = some a; len = suc d.len },
        h2,
        rw k (
            ap
              (λ x. do
                (d1, h2) ← set_front d h1 x (some a)
                some (record d1 { tail = some a; len = suc d1.len }, h2))
              l.tail
            ∙ rw k2 refl),
        record {
          linked = Linked-append h2 none none q ((a, n.element) ∷ []) l2 (node, tt);
          head = sym (front-append q ((a, n.element) ∷ []) none);
          tail = sym (back-append none q ((a, n.element) ∷ []));
          len = ground (arith, l.len, length-append q ((a, n.element) ∷ []));
          distinct = push_back-Distinct a n.element q u l.distinct;
          cursor_in = cursor_stays d.cursor l.cursor_in;
        },
      )
    where
      node_at_tail :
          put h a (record n { next = none; prev = d.tail }) a
          ≡ some (record { next = none; prev = back none q; element = n.element })
      node_at_tail = rw (l.tail) (ground arith)

      cursor_stays :
          (c : Option DeqCursor) → CursorIn c q → CursorIn c (Queue.push_back a n.element q)
      cursor_stays none i = tt
      cursor_stays (some at_end) i = tt
      cursor_stays (some (at_node y)) i =
          ground (arith, i, contains-append y q ((a, n.element) ∷ []))
