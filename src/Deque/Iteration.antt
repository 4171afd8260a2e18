-- ===== src/Deque/Iteration.antt =====
-- src/common/deque.rs: `contains` and the iterator over a deque of linked nodes.
use moka.Base.{
  ℕ, zero, suc, ◌≡◌, refl, sym, ap, subst, ◌∙◌, inl, inr, List, [], ◌∷◌, ◌++◌, true, false, Option,
  none, some, arith, ◌>>=◌, length, Option-cases,
}
use moka.Queue
use moka.Queue.{Queue, find}
use moka.Queue.Laws.{contains-append, find-contains}
use moka.Deque.{
  Deque, DeqNode, DeqCursor, at_node, at_end, Heap, is_head, contains, advance_cursor, next_element,
}
use moka.Deque.Segment.{front, Linked, back-contains}
use moka.Deque.Parts.{Represents, at_place}
use moka.Deque.Places.{split_at}

abbrev placed : Deque → Option DeqCursor → Deque
placed d c = record d { cursor = c }

module _ {T : Type 0} where
  contains_at :
      (d : Deque) (h : Heap T) (a : ℕ) (e : T) (p r : Queue T)
      → Represents d h (p ++ (a, e) ∷ r)
      → contains d h a ≡ some true
  unfolding contains
  contains_at d h a e [] r l = rw (l.linked.0) (rw (l.head) (ground arith))
  contains_at d h a e ((b, f) ∷ p) r l =
      let (lp, la, lr, dp, dr, x, np, nr, t, hd) = at_place d h a e ((b, f) ∷ p) r l in
      let (y, k, c) = back-contains none b f p in rw la (rw k refl)

  -- A node that is not of the deque is not the head.
  outside_head :
      (a : ℕ) (q : Queue T) (d : Deque)
      → d.head ≡ front q none
      → Queue.contains a q ≡ false
      → is_head d a ≡ false
  unfolding Queue.contains
  outside_head a [] d k u = rw k refl
  outside_head a ((b, e) ∷ q) d k u = rw k (ground (arith, u))

  -- For a node in the heap that has no previous node unless it is of the deque, contains says
  -- whether the list has its address.
  pub contains_iff :
      (d : Deque) (h : Heap T) (a : ℕ) (n : DeqNode T) (q : Queue T)
      → Represents d h q
      → h a ≡ some n
      → (Queue.contains a q ≡ false → n.prev ≡ none)
      → contains d h a ≡ some (Queue.contains a q)
  contains_iff d h a n q l k u = elim (Option-cases (find a q)) [
    | inl f ↦ let w = find-contains a q f in outside w (u w) (outside_head a q d l.head w)
    | inr (e, f) ↦
        let (p, r, s) = split_at a e q f in
        contains_at d h a e p r (subst (Represents d h) s l)
        ∙ ap some (sym (ap (Queue.contains a) s ∙ in_list p r e))
  ]
    where
      in_list : (p r : Queue T) (e : T) → Queue.contains a (p ++ (a, e) ∷ r) ≡ true
      in_list p r e = unfold Queue.contains in ground (arith, contains-append a p ((a, e) ∷ r))

      outside :
          Queue.contains a q ≡ false
          → n.prev ≡ none
          → is_head d a ≡ false
          → contains d h a ≡ some (Queue.contains a q)
      outside w v z = unfold contains in rw k (rw v (rw (z, w) refl))

  -- The calls of `next`, one after another.
  unfoldable pub iterate : ℕ → Deque → Heap T → Option (Deque × List (Option T))
  unfolding next_element
  iterate zero d h = some (d, [])
  iterate (suc n) d h = do (d1, x) ← next_element d h; (d2, xs) ← iterate n d1 h; some (d2, x ∷ xs)

  -- The elements in order, and the end.
  abbrev pub elements : Queue T → List (Option T)
  elements [] = none ∷ []
  elements ((a, e) ∷ q) = some e ∷ elements q

  abbrev cursor_to : Queue T → Option DeqCursor
  cursor_to [] = some at_end
  cursor_to ((a, e) ∷ q) = some (at_node a)

  next_at :
      (d : Deque) (h : Heap T) (a : ℕ) (e : T) (p : Option ℕ) (r : Queue T)
      → Linked h p ((a, e) ∷ r) none
      → next_element (placed d (some (at_node a))) h ≡ some (placed d (cursor_to r), some e)
  unfolding next_element advance_cursor
  next_at d h a e p [] l = rw (l.0) refl
  next_at d h a e p ((b, f) ∷ r) l = rw (l.0) refl

  iterate_from :
      (d : Deque) (h : Heap T) (p : Option ℕ) (r : Queue T)
      → Linked h p r none
      → iterate (suc (length r)) (placed d (cursor_to r)) h ≡ some (placed d none, elements r)
  unfolding iterate
  iterate_from d h p [] l = unfold next_element advance_cursor in refl
  iterate_from d h p ((a, e) ∷ r) l =
      rw (next_at d h a e p r l) (rw (iterate_from d h (some a) r l.1) refl)

  -- The first call starts at the head.
  start :
      (d : Deque) (h : Heap T) (q : Queue T) (hd : Option ℕ)
      → front q none ≡ hd
      → next_element (record d { head = hd; cursor = none }) h
        ≡ next_element (record d { head = hd; cursor = cursor_to q }) h
  start d h q hd k =
      subst
        (λ x.
          next_element (record d { head = x; cursor = none }) h
          ≡ next_element (record d { head = x; cursor = cursor_to q }) h)
        k (go q)
    where
      go :
          (q : Queue T)
          → next_element (record d { head = front q none; cursor = none }) h
            ≡ next_element (record d { head = front q none; cursor = cursor_to q }) h
      go [] = unfold next_element advance_cursor in refl
      go ((a, e) ∷ q) = unfold next_element in refl

  -- From a reset cursor, one call of the iterator more than there are nodes gives the elements
  -- from front to back and then the end, and resets the cursor.
  pub iterate-elements :
      (d : Deque) (h : Heap T) (q : Queue T)
      → Represents d h q
      → d.cursor ≡ none
      → iterate (suc (length q)) d h ≡ some (d, elements q)
  unfolding iterate
  iterate-elements d h q l c =
      subst (λ x. iterate (suc (length q)) (placed d x) h ≡ some (placed d x, elements q)) (sym c)
        (rw (start d h q d.head (sym l.head)) (iterate_from d h none q l.linked))
