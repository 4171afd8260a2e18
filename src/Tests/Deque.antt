-- ===== src/Tests/Deque.antt =====
-- Tests of src/common/deque.rs.
use moka.Base.{ℕ, suc, ◌≡◌, refl, List, [], ◌∷◌, none, some, arith, length}
use moka.Concurrent.{main_probation}
use moka.Queue
use moka.Queue.{Queue}
use moka.Deque
use moka.Deque.{Deque, DeqNode, Heap, contains}
use moka.Deque.Parts.{Represents}
use moka.Deque.Runs.{
  DequeOp, push_back_op, unlink_op, move_to_back_op, move_front_to_back_op, pop_front_op, run_ops,
  list_ops, run_ops-list_ops,
}
use moka.Deque.Iteration.{iterate, elements, iterate-elements, contains_iff}

abbrev no_heap : Heap ℕ
no_heap a = none

empty-Represents : Represents (Deque.new main_probation) no_heap []
empty-Represents = record {
  linked = tt;
  head = refl;
  tail = refl;
  len = refl;
  distinct = tt;
  cursor_in = tt;
}

abbrev operations : List (DequeOp ℕ)
operations =
    push_back_op 10 1
    ∷ push_back_op 11 2
    ∷ push_back_op 12 3
    ∷ move_to_back_op 11
    ∷ unlink_op 12
    ∷ move_front_to_back_op
    ∷ pop_front_op
    ∷ []

run_ops-list_ops_example :
    (d' : Deque) × (h' : Heap ℕ) × (run_ops (Deque.new main_probation) no_heap operations
      ≡ some (d', h'))
    × Represents d' h' (list_ops [] operations)
unfolding Queue.contains Queue.find Queue.unlink Queue.move_to_back Queue.move_front_to_back
run_ops-list_ops_example =
    run_ops-list_ops (Deque.new main_probation) no_heap [] operations empty-Represents
      (refl, (refl, (refl, (refl, (refl, (tt, (tt, tt)))))))

-- Two linked nodes.
abbrev two_nodes : Heap ℕ
two_nodes =
    Deque.put (Deque.put no_heap 10 (record { next = some 11; prev = none; element = 1 })) 11
      (record { next = none; prev = some 10; element = 2 })

abbrev pair : Deque
pair = record { region = main_probation; len = 2; head = some 10; tail = some 11; cursor = none }

abbrev nodes : Queue ℕ
nodes = (10, 1) ∷ (11, 2) ∷ []

pair-Represents : Represents pair two_nodes nodes
unfolding Queue.contains
pair-Represents = record {
  linked = (ground arith, (ground arith, tt));
  head = refl;
  tail = refl;
  len = refl;
  distinct = (refl, (refl, tt));
  cursor_in = tt;
}

iterate-elements_example : iterate (suc (length nodes)) pair two_nodes ≡ some (pair, elements nodes)
iterate-elements_example = iterate-elements pair two_nodes nodes pair-Represents refl

contains_iff_example : contains pair two_nodes 11 ≡ some (Queue.contains 11 nodes)
unfolding Queue.contains
contains_iff_example =
    contains_iff pair two_nodes 11 (record { next = none; prev = some 10; element = 2 }) nodes
      pair-Represents (ground arith) (λ h. cc)
