-- ===== src/Cache/Policy.antt =====
-- src/sync/base_cache.rs: the admission and the removal of an entry in the policies, and the reads.
use moka.Base.{ℕ, suc, List, [], ◌∷◌, true, false, not, Option, none, some, ◌>>=◌, if◌then◌else◌}
use moka.EntryInfo.{is_alive, set_admitted, set_policy_gen}
use moka.Concurrent.{
  ValueEntry, main_probation, ReadOp, hit, miss, set_info, take_timer_node, unset_q_nodes,
}
use moka.Deques.{push_back_ao, push_back_wo, move_to_back_ao, unlink_ao, unlink_wo}
use moka.TimerWheel.{deschedule}
use moka.Sketch
use moka.Cache.{
  State, Config, info_of, put_info, is_write_order_queue_enabled, saturating_add, counters_sub,
}
use moka.Cache.Timer.{update_timer_wheel}

module _ {K V : Type 0} where
  -- The counting and the pushes of `handle_admit`.
  unfoldable pub link_entry : Config → State K V → ValueEntry V → Option (State K V)
  link_entry c s e = do
    (d, sh) ← push_back_ao s.deques s.shared main_probation s.next_addr e.info e.nodes
    let (d', sh') =
        if is_write_order_queue_enabled c
        then push_back_wo d sh (suc s.next_addr) e.info e.nodes
        else (d, sh)
    some (record s {
      deques = d';
      shared = set_info sh' e.info (set_admitted (sh'.infos e.info) true);
      next_addr = suc (suc s.next_addr);
    })

  unfoldable pub handle_admit : Config → State K V → ValueEntry V → ℕ → Option (State K V)
  handle_admit c s e policy_weight = if not (is_alive (info_of s e)) then some s else do
    s1 ← update_timer_wheel (record s { counters = saturating_add s.counters 1 policy_weight }) e
    link_entry c s1 e

  -- The generation of a write operation, if there is one, is stored in the info.
  unfoldable pub store_policy_gen : State K V → ValueEntry V → Option ℕ → State K V
  store_policy_gen s e none = s
  store_policy_gen s e (some gen) = put_info s e.info (set_policy_gen [] (info_of s e) gen)

  -- An admitted entry leaves the counters and the deques.
  unfoldable pub unlink_admitted : State K V → ValueEntry V → Option (State K V)
  unlink_admitted s e = do
    (d, sh) ←
        unlink_ao s.deques (set_info s.shared e.info (set_admitted (info_of s e) false)) e.nodes
    let (d', sh') = unlink_wo d sh e.nodes
    some (record s {
      deques = d';
      shared = sh';
      counters = counters_sub s.counters 1 (info_of s e).policy_weight;
    })

  -- The part that the removals share: an entry that is not admitted loses its pointers.
  unfoldable pub unlink_entry : State K V → ValueEntry V → Option (State K V)
  unlink_entry s e =
      if (info_of s e).is_admitted
      then unlink_admitted s e
      else some (record s { shared = unset_q_nodes s.shared e.nodes })

  -- The debug assertion that the entry is retired is left out.
  unfoldable pub handle_remove_without_timer_wheel :
      State K V → ValueEntry V → Option ℕ → Option (State K V)
  handle_remove_without_timer_wheel s e gen = do
    s1 ← unlink_entry s e
    some (store_policy_gen s1 e gen)

  -- The entry's timer node is taken and descheduled.
  unfoldable pub drop_timer : State K V → ValueEntry V → Option (State K V)
  drop_timer s e =
      let (timer, gen, sh) = take_timer_node s.shared e.nodes in
      elim timer [
        | none ↦ some (record s { shared = sh })
        | some tn ↦ do
          (w, valid) ← deschedule s.timer_wheel tn gen
          some (record s { shared = sh; timer_wheel = w })
      ]

  unfoldable pub handle_remove : State K V → ValueEntry V → Option ℕ → Option (State K V)
  handle_remove s e gen = do s1 ← drop_timer s e; handle_remove_without_timer_wheel s1 e gen

  -- The deque that the caller passes is the one of the entry's region, which `unlink_ao` finds.
  unfoldable pub handle_remove_with_deques : State K V → ValueEntry V → Option (State K V)
  handle_remove_with_deques s e = do s1 ← drop_timer s e; unlink_entry s1 e

  -- One message of the read channel.
  unfoldable pub apply_read : State K V → ReadOp V → Option (State K V)
  apply_read s (miss hash) = some (record s { sketch = Sketch.increment s.sketch hash })
  apply_read s (hit e is_expiry_modified) =
      let s1 = record s { sketch = Sketch.increment s.sketch (info_of s e).key_hash.hash } in
      if not (is_alive (info_of s e)) then some s1 else do
        s2 ← if is_expiry_modified then update_timer_wheel s1 e else some s1
        d ← move_to_back_ao s2.deques s2.shared e.nodes
        some (record s2 { deques = d })

  -- The messages that the channel yields, at most `count`.
  unfoldable pub apply_reads : State K V → List (ReadOp V) → Option (State K V)
  apply_reads s [] = some s
  apply_reads s (op ∷ ops) = do s1 ← apply_read s op; apply_reads s1 ops
