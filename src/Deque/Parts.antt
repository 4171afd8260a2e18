-- ===== src/Deque/Parts.antt =====
-- src/common/deque.rs: the steps of which the operations are made, on a deque that is a list of
-- linked nodes.
use moka.Base.{
  ℕ, ◌≡◌, refl, ap, subst, ◌∙◌, inl, inr, [], ◌∷◌, ◌++◌, true, false, Option, none, some, arith,
  ◌==◌, length, Bool-cases,
}
use moka.Queue.{Queue, contains}
use moka.Queue.Laws.{Distinct, contains-append, unlink-Distinct}
use moka.Queue.Cursor.{absent_before, unlink_split}
use moka.Deque.{
  Deque, DeqNode, DeqCursor, at_node, at_end, Heap, set_front, set_back, advance_cursor, leave,
  bypass,
}
use moka.Deque.Segment.{
  front, back, Linked, Linked-Agree, Linked-split, front-append, back-append, set_next-back,
  set_prev-front,
}

-- Where the cursor goes from a node.
abbrev after : Option ℕ → Option DeqCursor
after none = some at_end
after (some b) = some (at_node b)

module _ {T : Type 0} where
  -- The cursor is on a node of the list, if on any.
  abbrev pub CursorIn : Option DeqCursor → Queue T → Type 0
  CursorIn none q = Unit {0}
  CursorIn (some (at_node a)) q = contains a q ≡ true
  CursorIn (some at_end) q = Unit {0}

  -- The deque is the list of nodes, each address once, linked both ways from its head to its tail.
  pub record Represents (d : Deque) (h : Heap T) (q : Queue T) : Type 0 where
    pub linked : Linked h none q none
    pub head : d.head ≡ front q none
    pub tail : d.tail ≡ back none q
    pub len : d.len ≡ length q
    pub distinct : Distinct q
    pub cursor_in : CursorIn d.cursor q

  -- The parts of a list with distinct addresses.
  pub Distinct-split :
      (p r : Queue T)
      → Distinct (p ++ r)
      → Distinct p × Distinct r × ((b : ℕ) → contains b p ≡ true → contains b r ≡ false)
  unfolding contains
  Distinct-split [] r d = (tt, d, λ b c. cc)
  Distinct-split ((a, e) ∷ p) r d =
      let (x, y, z) = Distinct-split p r d.1 in
      (
        (ground (arith, contains-append a p r, d.0), x),
        y,
        λ b c. ground (arith, c, z b, contains-append a p r, d.0),
      )

  pub set_front_lem :
      (d : Deque) (h : Heap T) (n v : Option ℕ) (p : Queue T)
      → Distinct p
      → Linked h none p n
      → d.head ≡ front p n
      → (h' : Heap T) × (set_front d h (back none p) v ≡ some (record d { head = front p v }, h'))
        × Linked h' none p v
        × ((b : ℕ) → contains b p ≡ false → h' b ≡ h b)
  unfolding set_front
  set_front_lem d h n v [] u l k = (h, refl, tt, λ b c. refl)
  set_front_lem d h n v ((a, e) ∷ p) u l k =
      let (t, h', m, s, l', g, c) = set_next-back h none n v a e p u l in
      (h', rw m (rw s (ap (λ x. some (record d { head = x }, h')) k)), l', g)

  pub set_back_lem :
      (d : Deque) (h : Heap T) (p v : Option ℕ) (r : Queue T)
      → Distinct r
      → Linked h p r none
      → d.tail ≡ back p r
      → (h' : Heap T) × (set_back d h (front r none) v ≡ some (record d { tail = back v r }, h'))
        × Linked h' v r none
        × ((b : ℕ) → contains b r ≡ false → h' b ≡ h b)
  unfolding set_back
  set_back_lem d h p v [] u l k = (h, refl, tt, λ b c. refl)
  set_back_lem d h p v ((a, e) ∷ r) u l k =
      let (h', s, l', g) = set_prev-front h p none v a e r u l in
      (h', rw s (ap (λ x. some (record d { tail = x }, h')) k), l', g)

  goes_on : (p r : Queue T) → CursorIn (after (front r none)) (p ++ r)
  unfolding contains
  goes_on p [] = tt
  goes_on p ((b, f) ∷ r) = ground (arith, contains-append b p ((b, f) ∷ r))

  -- A node between two lists.
  module _ (d : Deque) (h : Heap T) (a : ℕ) (e : T) (p r : Queue T)
      (l : Represents d h (p ++ (a, e) ∷ r)) where
    abbrev cell : DeqNode T
    cell = record { next = front r none; prev = back none p; element = e }

    -- What is known of the two lists and the node.
    pub at_place :
        Linked h none p (some a)
        × (h a ≡ some cell)
        × Linked h (some a) r none
        × Distinct p
        × Distinct r
        × ((b : ℕ) → contains b p ≡ true → contains b r ≡ false)
        × (contains a p ≡ false)
        × (contains a r ≡ false)
        × (d.tail ≡ back (some a) r)
        × (d.head ≡ front p (some a))
    unfolding contains
    at_place =
        let (lp, (la, lr)) = Linked-split h none none p ((a, e) ∷ r) l.linked in
        let (dp, (ar, dr), x) = Distinct-split p ((a, e) ∷ r) l.distinct in
        (
          lp,
          la,
          lr,
          dp,
          dr,
          λ b c. ground (arith, x b c),
          absent_before a e p r l.distinct,
          ar,
          l.tail ∙ back-append none p ((a, e) ∷ r),
          l.head ∙ front-append p ((a, e) ∷ r) none,
        )

    pub joined-Distinct : Distinct (p ++ r)
    joined-Distinct =
        subst Distinct (unlink_split a e p r (absent_before a e p r l.distinct))
          (unlink-Distinct a (p ++ (a, e) ∷ r) l.distinct)

    -- The node is bypassed: the lists are linked with each other, and the node is as it was.
    pub bypass_lem :
        (h' : Heap T) × (bypass d h a
          ≡ some (record d { head = front p (front r none); tail = back (back none p) r }, h'))
        × Linked h' none p (front r none)
        × Linked h' (back none p) r none
        × (h' a ≡ some cell)
    unfolding bypass
    bypass_lem =
        let (lp, la, lr, dp, dr, x, np, nr, t, hd) = at_place in
        let (h1, k1, l1, g1) = set_front_lem d h (some a) (front r none) p dp lp hd in
        let lr1 = Linked-Agree h h1 (some a) none r (λ b c. g1 b (ground (arith, c, x b))) lr in
        let (h2, k2, l2, g2) =
          set_back_lem (record d { head = front p (front r none) }) h1 (some a) (back none p) r dr
            lr1 t in
        (
          h2,
          rw la (rw k1 (rw (g1 a np ∙ la) k2)),
          Linked-Agree h1 h2 none (front r none) p (λ b c. g2 b (x b c)) l1,
          l2,
          g2 a nr ∙ g1 a np ∙ la,
        )

    -- The cursor goes on if it was on the node.
    pub leave_lem :
        (x : Option DeqCursor) × (leave d h a ≡ some (record d { cursor = x }))
        × CursorIn x (p ++ r)
    unfolding leave advance_cursor contains
    leave_lem = go d.cursor refl
      where
        go :
            (c : Option DeqCursor)
            → d.cursor ≡ c
            → (x : Option DeqCursor) × (leave d h a ≡ some (record d { cursor = x }))
              × CursorIn x (p ++ r)
        go none k = (none, rw (k, leave) refl, tt)
        go (some at_end) k = (some at_end, rw (k, leave) refl, tt)
        go (some (at_node b)) k = elim (Bool-cases (b == a)) [
          | inl w ↦
              let same : b ≡ a = ground (arith, w) in
              (
                after (front r none),
                rw (k, leave) (rw w (rw (ap h same ∙ at_place.1) refl)),
                goes_on p r,
              )
          | inr w ↦ (
            some (at_node b),
            rw (k, leave) (rw w refl),
            ground (
              arith,
              w,
              subst (λ y. CursorIn y (p ++ (a, e) ∷ r)) k l.cursor_in,
              contains-append b p r,
              contains-append b p ((a, e) ∷ r),
            ),
          )
        ]

    CursorIn-weaken : (x : Option DeqCursor) → CursorIn x (p ++ r) → CursorIn x (p ++ (a, e) ∷ r)
    unfolding contains
    CursorIn-weaken none c = tt
    CursorIn-weaken (some at_end) c = tt
    CursorIn-weaken (some (at_node b)) c =
        ground (arith, c, contains-append b p r, contains-append b p ((a, e) ∷ r))

    -- The deque after the cursor has left the node.
    pub left_lem :
        (x : Option DeqCursor) × (leave d h a ≡ some (record d { cursor = x }))
        × CursorIn x (p ++ r)
        × Represents (record d { cursor = x }) h (p ++ (a, e) ∷ r)
    left_lem =
        let (x, k, c) = leave_lem in
        (
          x,
          k,
          c,
          record {
            linked = l.linked;
            head = l.head;
            tail = l.tail;
            len = l.len;
            distinct = l.distinct;
            cursor_in = CursorIn-weaken x c;
          },
        )
