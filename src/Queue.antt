-- ===== src/Queue.antt =====
-- The list view of src/common/deque.rs: a deque is the list of its nodes from front to back, a node
-- its address and its element. The components that own deques are modelled over this view.
pub mod Laws
pub mod Cursor
use moka.Base.{
  ℕ, ◌+◌, List, [], ◌∷◌, ◌++◌, Bool, false, ◌||◌, Option, none, some, ◌==◌, if◌then◌else◌,
}

abbrev pub Queue {ℓ} : Type ℓ → Type ℓ
Queue T = List (ℕ × T)

module _ {ℓ} {T : Type ℓ} where
  -- The element behind a pointer, if it points to a node of the deque.
  unfoldable pub find : ℕ → Queue T → Option T
  find a [] = none
  find a ((b, e) ∷ q) = if b == a then some e else find a q

  unfoldable pub contains : ℕ → Queue T → Bool
  contains a [] = false
  contains a ((b, e) ∷ q) = b == a || contains a q

  unfoldable pub unlink : ℕ → Queue T → Queue T
  unlink a [] = []
  unlink a ((b, e) ∷ q) = if b == a then q else (b, e) ∷ unlink a q

  abbrev pub push_back : ℕ → T → Queue T → Queue T
  push_back a e q = q ++ (a, e) ∷ []

  unfoldable pub move_to_back : ℕ → Queue T → Queue T
  move_to_back a q = elim (find a q) [ none ↦ q | some e ↦ push_back a e (unlink a q) ]

  unfoldable pub move_front_to_back : Queue T → Queue T
  move_front_to_back [] = []
  move_front_to_back ((a, e) ∷ q) = push_back a e q

  unfoldable pub peek_back : Queue T → Option (ℕ × T)
  peek_back [] = none
  peek_back (n ∷ []) = some n
  peek_back (n ∷ m ∷ q) = peek_back (m ∷ q)

  -- The pointer to the front node.
  abbrev pub peek_front_ptr : Queue T → Option ℕ
  peek_front_ptr [] = none
  peek_front_ptr ((a, e) ∷ q) = some a

  -- The node behind a node.
  unfoldable pub next_node : ℕ → Queue T → Option ℕ
  next_node a [] = none
  next_node a (n ∷ []) = none
  next_node a ((b, e) ∷ (c, f) ∷ q) = if b == a then some c else next_node a ((c, f) ∷ q)
