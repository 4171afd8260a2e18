-- ===== src/Deque.antt =====
-- src/common/deque.rs: the doubly linked deque over a heap of nodes. A pointer is an address, and
-- `none` as the outcome of an operation is an access to an address with no node, or the
-- `unreachable!` of `move_to_back`. Queue is its list view.
pub mod Segment
pub mod Parts
pub mod Places
pub mod Refines
pub mod Runs
pub mod Iteration
use moka.Base.{ℕ, suc, ◌-◌, Bool, true, false, Option, none, some, ◌>>=◌, ◌==◌, ◌||◌, if◌then◌else◌}
use moka.Concurrent.{CacheRegion}

pub record DeqNode (T : Type 0) : Type 0 where
  pub next : Option ℕ
  pub prev : Option ℕ
  pub element : T

pub data DeqCursor : Type 0 where
  at_node : ℕ → DeqCursor
  at_end : DeqCursor

pub record Deque : Type 0 where
  pub region : CacheRegion
  pub len : ℕ
  pub head : Option ℕ
  pub tail : Option ℕ
  pub cursor : Option DeqCursor

abbrev pub Heap : Type 0 → Type 0
Heap T = ℕ → Option (DeqNode T)

abbrev pub new : CacheRegion → Deque
new region = record { region = region; len = 0; head = none; tail = none; cursor = none }

-- `std::ptr::eq` with the pointer of a field.
abbrev pub points_to : Option ℕ → ℕ → Bool
points_to none a = false
points_to (some b) a = b == a

abbrev pub is_head : Deque → ℕ → Bool
is_head d a = points_to d.head a

abbrev pub is_tail : Deque → ℕ → Bool
is_tail d a = points_to d.tail a

abbrev pub is_at_cursor : Deque → ℕ → Bool
is_at_cursor d a = elim d.cursor [
  | none ↦ false
  | some c ↦ elim c [ at_node b ↦ b == a | at_end ↦ false ]
]

abbrev pub reset_cursor : Deque → Deque
reset_cursor d = record d { cursor = none }

module _ {T : Type 0} where
  abbrev pub put : Heap T → ℕ → DeqNode T → Heap T
  put h a n b = if b == a then some n else h b

  abbrev pub free : Heap T → ℕ → Heap T
  free h a b = if b == a then none else h b

  unfoldable pub set_next : Heap T → ℕ → Option ℕ → Option (Heap T)
  set_next h a v = do n ← h a; some (put h a (record n { next = v }))

  unfoldable pub set_prev : Heap T → ℕ → Option ℕ → Option (Heap T)
  set_prev h a v = do n ← h a; some (put h a (record n { prev = v }))

  unfoldable pub contains : Deque → Heap T → ℕ → Option Bool
  contains d h a = do n ← h a; some (elim n.prev [ none ↦ is_head d a | some p ↦ true ])

  unfoldable pub advance_cursor : Deque → Heap T → Option Deque
  advance_cursor d h = elim d.cursor [
    | none ↦ some d
    | some c ↦ elim c [
      | at_node a ↦ do
        n ← h a
        some (record d { cursor = elim n.next [ none ↦ some at_end | some b ↦ some (at_node b) ] })
      | at_end ↦ some (record d { cursor = none })
    ]
  ]

  -- The cursor leaves a node that is about to leave its place.
  unfoldable pub leave : Deque → Heap T → ℕ → Option Deque
  leave d h a = if is_at_cursor d a then advance_cursor d h else some d

  -- The pointer to what follows a place: that of the node before it, or the head.
  unfoldable pub set_front : Deque → Heap T → Option ℕ → Option ℕ → Option (Deque × Heap T)
  set_front d h none v = some (record d { head = v }, h)
  set_front d h (some p) v = do h' ← set_next h p v; some (d, h')

  -- The pointer to what precedes a place: that of the node behind it, or the tail.
  unfoldable pub set_back : Deque → Heap T → Option ℕ → Option ℕ → Option (Deque × Heap T)
  set_back d h none v = some (record d { tail = v }, h)
  set_back d h (some n) v = do h' ← set_prev h n v; some (d, h')

  -- The pointers on both sides of a node, which itself is read before each.
  unfoldable pub bypass : Deque → Heap T → ℕ → Option (Deque × Heap T)
  bypass d h a = do
    n ← h a
    (d1, h1) ← set_front d h n.prev n.next
    n1 ← h1 a
    set_back d1 h1 n1.next n1.prev

  unfoldable pub clear_node : Heap T → ℕ → Option (Heap T)
  clear_node h a = do n ← h a; some (put h a (record n { prev = none; next = none }))

  unfoldable pub unlink : Deque → Heap T → ℕ → Option (Deque × Heap T)
  unlink d h a = do
    d1 ← leave d h a
    (d2, h2) ← bypass d1 h a
    h3 ← clear_node h2 a
    some (record d2 { len = d2.len - 1 }, h3)

  unfoldable pub unlink_and_drop : Deque → Heap T → ℕ → Option (Deque × Heap T)
  unlink_and_drop d h a = do (d1, h1) ← unlink d h a; some (d1, free h1 a)

  -- The node at `a` is the box that the caller passes.
  unfoldable pub push_back : Deque → Heap T → ℕ → Option (Deque × Heap T)
  push_back d h a = do
    n ← h a
    let h1 = put h a (record n { next = none; prev = d.tail })
    (d1, h2) ← set_front d h1 d.tail (some a)
    some (record d1 { tail = some a; len = suc d1.len }, h2)

  -- The front node that is returned is out of the heap.
  unfoldable pub pop_front : Deque → Heap T → Option (Deque × Heap T × Option (DeqNode T))
  pop_front d h = elim d.head [
    | none ↦ some (d, h, none)
    | some a ↦ do
      d1 ← leave d h a
      n ← h a
      (d2, h2) ← set_back (record d1 { head = n.next }) h n.next none
      some (record d2 { len = d2.len - 1 }, free h2 a, some (record n { prev = none; next = none }))
  ]

  -- What `move_to_back` does before the node: nothing if it is the last one.
  unfoldable pub close_front : Deque → Heap T → Option ℕ → Option ℕ → Option (Deque × Heap T)
  close_front d h none next = some (record d { head = next }, h)
  close_front d h (some p) none = some (d, h)
  close_front d h (some p) (some n) = do h' ← set_next h p (some n); some (d, h')

  -- The node, which has one behind it, becomes the tail.
  unfoldable pub append_node : Deque → Heap T → ℕ → Option (Deque × Heap T)
  append_node d h a = do
    n ← h a
    let h1 = put h a (record n { prev = d.tail; next = none })
    t ← d.tail
    h2 ← set_next h1 t (some a)
    some (record d { tail = some a }, h2)

  unfoldable pub move_to_back : Deque → Heap T → ℕ → Option (Deque × Heap T)
  move_to_back d h a = if is_tail d a then some (d, h) else do
    d1 ← leave d h a
    n ← h a
    (d2, h2) ← close_front d1 h n.prev n.next
    elim n.next [
      | none ↦ some (d2, h2)
      | some b ↦ do h3 ← set_prev h2 b n.prev; append_node d2 h3 a
    ]

  unfoldable pub move_front_to_back : Deque → Heap T → Option (Deque × Heap T)
  move_front_to_back d h = elim d.head [ none ↦ some (d, h) | some a ↦ move_to_back d h a ]

  -- `next` of the iterator: the element at the cursor, which starts at the head and moves on.
  unfoldable pub next_element : Deque → Heap T → Option (Deque × Option T)
  next_element d h =
      let d1 = record d {
        cursor = elim d.cursor [
          | none ↦ elim d.head [ none ↦ none | some a ↦ some (at_node a) ]
          | some c ↦ some c
        ];
      } in
      do
        elem ← elim d1.cursor [
          | none ↦ some none
          | some c ↦ elim c [ at_node a ↦ do n ← h a; some (some n.element) | at_end ↦ some none ]
        ]
        d2 ← advance_cursor d1 h
        some (d2, elem)
