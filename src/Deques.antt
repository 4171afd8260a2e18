-- ===== src/Deques.antt =====
-- src/common/concurrent/deques.rs: the access-order deques of the regions and the write-order deque,
-- over the list view of a deque. The element of a node, a `KeyHashDate`, is the address of its
-- `EntryInfo`. `none` as an outcome is an `unreachable!`.
use moka.Base.{ℕ, Option, none, some, ◌>>=◌, if◌then◌else◌}
use moka.Concurrent.{
  CacheRegion, window, main_probation, main_protected, other, Shared, set_access_order_q_node,
  set_write_order_q_node,
}
use moka.Queue
use moka.Queue.{Queue}

pub record Deques : Type 0 where
  pub window : Queue ℕ
  pub probation : Queue ℕ
  pub protected : Queue ℕ
  pub write_order : Queue ℕ

-- The deque of a region, and the deques with another one in its place.
unfoldable pub region_deque : Deques → CacheRegion → Option (Queue ℕ)
region_deque d window = some d.window
region_deque d main_probation = some d.probation
region_deque d main_protected = some d.protected
region_deque d other = none

unfoldable pub set_region : Deques → CacheRegion → Queue ℕ → Deques
set_region d window q = record d { window = q }
set_region d main_probation q = record d { probation = q }
set_region d main_protected q = record d { protected = q }
set_region d other q = d

module _ {ℓ} {K : Type ℓ} where
  -- `addr` is the address of the new node, `nodes` that of the entry's `DeqNodes`.
  unfoldable pub push_back_ao :
      Deques → Shared K → CacheRegion → ℕ → ℕ → ℕ → Option (Deques × Shared K)
  push_back_ao d sh region addr info nodes = do
    q ← region_deque d region
    some (
      set_region d region (Queue.push_back addr info q),
      set_access_order_q_node sh nodes (some (addr, region)),
    )

  unfoldable pub push_back_wo : Deques → Shared K → ℕ → ℕ → ℕ → Deques × Shared K
  push_back_wo d sh addr info nodes = (
    record d { write_order = Queue.push_back addr info d.write_order },
    set_write_order_q_node sh nodes (some addr),
  )

  unfoldable pub move_to_back_ao : Deques → Shared K → ℕ → Option Deques
  move_to_back_ao d sh nodes = elim ((sh.deq_nodes nodes).access_order_q_node) [
    | none ↦ some d
    | some (node, region) ↦ do
      q ← region_deque d region
      if Queue.contains node q then some (set_region d region (Queue.move_to_back node q)) else none
  ]

  unfoldable pub move_to_back_wo : Deques → Shared K → ℕ → Deques
  move_to_back_wo d sh nodes = elim ((sh.deq_nodes nodes).write_order_q_node) [
    | none ↦ d
    | some node ↦
        if Queue.contains node d.write_order
        then record d { write_order = Queue.move_to_back node d.write_order }
        else d
  ]

  -- `unlink_ao`, `unlink_node_ao` and `unlink_node_ao_from_deque`; the assertion that the region of
  -- the deque is the tag holds by the choice of the deque.
  unfoldable pub unlink_ao : Deques → Shared K → ℕ → Option (Deques × Shared K)
  unlink_ao d sh nodes = elim ((sh.deq_nodes nodes).access_order_q_node) [
    | none ↦ some (d, sh)
    | some (node, region) ↦ do
      q ← region_deque d region
      some (
        if Queue.contains node q then set_region d region (Queue.unlink node q) else d,
        set_access_order_q_node sh nodes none,
      )
  ]

  unfoldable pub unlink_wo : Deques → Shared K → ℕ → Deques × Shared K
  unlink_wo d sh nodes = elim ((sh.deq_nodes nodes).write_order_q_node) [
    | none ↦ (d, sh)
    | some node ↦ (
      if Queue.contains node d.write_order
          then record d { write_order = Queue.unlink node d.write_order }
          else d,
      set_write_order_q_node sh nodes none,
    )
  ]
