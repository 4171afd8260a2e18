-- ===== src/Deque/Runs.antt =====
-- src/common/deque.rs: sequences of operations on the linked nodes and on the list view.
use moka.Base.{
  ℕ, ◌-◌, ◌≡◌, refl, sym, ap, ◌∙◌, inl, inr, List, [], ◌∷◌, true, false, Option, none, some, arith,
  ◌>>=◌, Option-cases,
}
use moka.Queue
use moka.Queue.{Queue, find}
use moka.Queue.Laws.{find-contains}
use moka.Deque.{
  Deque, DeqNode, Heap, put, free, set_back, leave, unlink, push_back, move_to_back,
  move_front_to_back, pop_front,
}
use moka.Deque.Segment.{front, back, Linked, Linked-Agree, Agree-put, differs}
use moka.Deque.Parts.{Represents, set_back_lem, at_place, left_lem}
use mathlib.Core.Bool.{true≢false}
use moka.Deque.Refines.{
  unlink-Represents, move_to_back-Represents, move_front_to_back-Represents, push_back-Represents,
  Yields,
}

module _ {T : Type 0} where
  -- What `pop_front` does after it has seen the head.
  abbrev pop_after : Deque → Heap T → Option ℕ → Option (Deque × Heap T × Option (DeqNode T))
  pop_after d h none = some (d, h, none)
  pop_after d h (some a) = do
    d1 ← leave d h a
    n ← h a
    (d2, h2) ← set_back (record d1 { head = n.next }) h n.next none
    some (record d2 { len = d2.len - 1 }, free h2 a, some (record n { prev = none; next = none }))

  Linked-free :
      (h : Heap T) (a : ℕ) (p n : Option ℕ) (q : Queue T)
      → Queue.contains a q ≡ false
      → Linked h p q n
      → Linked (free h a) p q n
  Linked-free h a p n q u l = Linked-Agree h (free h a) p n q (λ b c. rw (differs a b q u c) refl) l

  -- The front node leaves the deque and the heap.
  pop_front-Represents :
      (d : Deque) (h : Heap T) (a : ℕ) (e : T) (r : Queue T)
      → Represents d h ((a, e) ∷ r)
      → (d' : Deque) × (h' : Heap T) × (pop_front d h
          ≡ some (d', h', some (record { next = none; prev = none; element = e })))
        × Represents d' h' r
        × (h' a ≡ none)
  unfolding pop_front
  pop_front-Represents d h a e r l =
      let (c, k1, ci, l1) = left_lem d h a e [] r l in
      let (lp, la, lr, dp, dr, x, np, nr, t, hd) =
        at_place (record d { cursor = c }) h a e [] r l1 in
      let d1 = record d { cursor = c; head = front r none } in
      let (h2, k2, l2, g2) = set_back_lem d1 h (some a) none r dr lr t in
      (
        record d1 { tail = back none r; len = d.len - 1 },
        free h2 a,
        ap (pop_after d h) l.head ∙ rw k1 (rw la (rw k2 refl)),
        record {
          linked = Linked-free h2 a none none r nr l2;
          head = refl;
          tail = refl;
          len = ground (arith, l.len);
          distinct = dr;
          cursor_in = ci;
        },
        ground arith,
      )

pub data DequeOp (T : Type 0) : Type 0 where
  push_back_op : ℕ → T → DequeOp T
  unlink_op move_to_back_op : ℕ → DequeOp T
  move_front_to_back_op pop_front_op : DequeOp T

module _ {T : Type 0} where
  abbrev popped : Option (Deque × Heap T × Option (DeqNode T)) → Option (Deque × Heap T)
  popped none = none
  popped (some (d, h, n)) = some (d, h)

  -- An operation on the linked nodes; a push allocates its node first.
  abbrev pub run_op : Deque → Heap T → DequeOp T → Option (Deque × Heap T)
  run_op d h (push_back_op a e) =
      push_back d (put h a (record { next = none; prev = none; element = e })) a
  run_op d h (unlink_op a) = unlink d h a
  run_op d h (move_to_back_op a) = move_to_back d h a
  run_op d h move_front_to_back_op = move_front_to_back d h
  run_op d h pop_front_op = popped (pop_front d h)

  abbrev pub run_ops : Deque → Heap T → List (DequeOp T) → Option (Deque × Heap T)
  run_ops d h [] = some (d, h)
  run_ops d h (op ∷ ops) = do (d1, h1) ← run_op d h op; run_ops d1 h1 ops

  -- The same on the list of nodes.
  abbrev pub list_op : Queue T → DequeOp T → Queue T
  list_op q (push_back_op a e) = Queue.push_back a e q
  list_op q (unlink_op a) = Queue.unlink a q
  list_op q (move_to_back_op a) = Queue.move_to_back a q
  list_op q move_front_to_back_op = Queue.move_front_to_back q
  list_op [] pop_front_op = []
  list_op (n ∷ q) pop_front_op = q

  abbrev pub list_ops : Queue T → List (DequeOp T) → Queue T
  list_ops q [] = q
  list_ops q (op ∷ ops) = list_ops (list_op q op) ops

  -- A pushed node is not of the deque, and a node that is unlinked or moved is.
  abbrev pub IsLegal : Queue T → DequeOp T → Type 0
  IsLegal q (push_back_op a e) = Queue.contains a q ≡ false
  IsLegal q (unlink_op a) = Queue.contains a q ≡ true
  IsLegal q (move_to_back_op a) = Queue.contains a q ≡ true
  IsLegal q move_front_to_back_op = Unit {0}
  IsLegal q pop_front_op = Unit {0}

  abbrev pub AllLegal : Queue T → List (DequeOp T) → Type 0
  AllLegal q [] = Unit {0}
  AllLegal q (op ∷ ops) = IsLegal q op × AllLegal (list_op q op) ops

  found : (a : ℕ) (q : Queue T) → Queue.contains a q ≡ true → (e : T) × (find a q ≡ some e)
  found a q c = elim (Option-cases (find a q)) [
    | inl f ↦ absurd (true≢false (sym c ∙ find-contains a q f))
    | inr (e, f) ↦ (e, f)
  ]

  Represents-put :
      (d : Deque) (h : Heap T) (a : ℕ) (n : DeqNode T) (q : Queue T)
      → Queue.contains a q ≡ false
      → Represents d h q
      → Represents d (put h a n) q
  Represents-put d h a n q u l = record {
    linked = Linked-Agree h (put h a n) none none q (Agree-put h a n q u) l.linked;
    head = l.head;
    tail = l.tail;
    len = l.len;
    distinct = l.distinct;
    cursor_in = l.cursor_in;
  }

  run_op-Yields :
      (d : Deque) (h : Heap T) (op : DequeOp T) (q : Queue T)
      → Represents d h q
      → IsLegal q op
      → Yields (run_op d h op) (list_op q op)
  run_op-Yields d h (push_back_op a e) q l u =
      let n : DeqNode T = record { next = none; prev = none; element = e } in
      push_back-Represents d (put h a n) a n q (Represents-put d h a n q u l) (ground arith) u
  run_op-Yields d h (unlink_op a) q l u =
      let (e, f) = found a q u in unlink-Represents d h a e q l f
  run_op-Yields d h (move_to_back_op a) q l u =
      let (e, f) = found a q u in move_to_back-Represents d h a e q l f
  run_op-Yields d h move_front_to_back_op q l u = move_front_to_back-Represents d h q l
  run_op-Yields d h pop_front_op [] l u =
      unfold pop_front in (d, h, ap popped (ap (pop_after d h) l.head), l)
  run_op-Yields d h pop_front_op ((a, e) ∷ q) l u =
      let (d', h', k, l', f) = pop_front-Represents d h a e q l in (d', h', ap popped k, l')

  -- Every sequence of legal operations on the linked nodes succeeds, without an access to an
  -- address with no node, and implements the same sequence on the list of nodes: pushes of nodes
  -- that are not of the deque, unlinks and moves of nodes that are, moves of the front and pops.
  -- The links in both directions, the head, the tail and the length are those of the list, and
  -- the cursor is on a node of it, if on any.
  pub run_ops-list_ops :
      (d : Deque) (h : Heap T) (q : Queue T) (ops : List (DequeOp T))
      → Represents d h q
      → AllLegal q ops
      → (d' : Deque) × (h' : Heap T) × (run_ops d h ops ≡ some (d', h'))
        × Represents d' h' (list_ops q ops)
  run_ops-list_ops d h q [] l u = (d, h, refl, l)
  run_ops-list_ops d h q (op ∷ ops) l u =
      let (d1, h1, k1, l1) = run_op-Yields d h op q l u.0 in
      let (d2, h2, k2, l2) = run_ops-list_ops d1 h1 (list_op q op) ops l1 u.1 in
      (d2, h2, rw k1 k2, l2)
