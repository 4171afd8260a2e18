-- ===== src/Cache/Links.antt =====
-- src/sync/base_cache.rs: `handle_admit` and `handle_remove` undo each other.
use moka.Base.{
  ℕ, suc, ◌+◌, ◌≤◌, ◌≡◌, refl, ◌>>=◌, ◌∙◌, List, [], ◌∷◌, true, false, Option, none, some, ◌==◌,
  Bool-cases, inl, inr, arith,
}
use moka.Base.Word.{u64_max}
use moka.EntryInfo.{expiration_state, retire}
use moka.Concurrent.{ValueEntry}
use moka.Queue.Cursor.{unlink_split}
use mathlib.Core.List.{append-nil}
use mathlib.Core.Option
use moka.TimerWheel.{TimerWheel}
use moka.Queue.{Queue, contains, unlink, push_back}
use moka.Deques.{Deques, push_back_ao, push_back_wo, unlink_ao, unlink_wo, region_deque, set_region}
use moka.Cache
use moka.Cache.{
  State, EvictionCounters, counters_sub, Config, info_of, put_info, is_write_order_queue_enabled,
}
use moka.Cache.Timer.{update_timer_wheel, enable_if, update_registration}
use moka.Cache.Policy.{
  handle_admit, link_entry, handle_remove, drop_timer, handle_remove_without_timer_wheel,
  unlink_entry, unlink_admitted, store_policy_gen,
}

-- The address that was pushed last is taken off again.
unlink-push_back : (a i : ℕ) (q : Queue ℕ) → contains a q ≡ false → unlink a (push_back a i q) ≡ q
unlink-push_back a i q h = unlink_split a i q [] h ∙ append-nil q

contains-push_back : (a i : ℕ) (q : Queue ℕ) → contains a (push_back a i q) ≡ true
unfolding contains
contains-push_back a i [] = ground arith
contains-push_back a i ((b, j) ∷ q) = ground (arith, contains-push_back a i q)

eq_self : (n : ℕ) → (n == n) ≡ true
eq_self n = ground arith

module _ {K V : Type 0} where
  -- An entry that is not to expire and has no timer leaves the wheel alone.
  pub update_timer_wheel_quiet :
      (s : State K V) (e : ValueEntry V)
      → (expiration_state (info_of s e)).0 ≡ none
      → (s.shared.deq_nodes e.nodes).timer_node ≡ none
      → update_timer_wheel s e ≡ some s
  unfolding update_timer_wheel enable_if update_registration
  update_timer_wheel_quiet s e h t = rw (h, t) refl

  -- An entry whose deque nodes are unset.
  abbrev pub IsUnlinked : State K V → ValueEntry V → Type 0
  IsUnlinked s e =
      ((s.shared.deq_nodes e.nodes).access_order_q_node ≡ none)
      × ((s.shared.deq_nodes e.nodes).write_order_q_node ≡ none)
      × ((s.shared.deq_nodes e.nodes).timer_node ≡ none)

  -- The addresses that the allocator gives are new to the deques.
  abbrev pub IsFresh : State K V → Type 0
  IsFresh s =
      (contains s.next_addr s.deques.probation ≡ false)
      × (contains (suc s.next_addr) s.deques.write_order ≡ false)

  -- The deques, the wheel, the counters and the map.
  abbrev pub kept : State K V → Deques × TimerWheel × EvictionCounters × List (K × ValueEntry V)
  kept s = (s.deques, s.timer_wheel, s.counters, s.cache)

  -- The removal of an entry from the map retires it before the maintenance removes it from the
  -- policies.
  abbrev pub admit_then_remove : Config → State K V → ValueEntry V → Option (State K V)
  admit_then_remove c s e = do
    s1 ← handle_admit c s e (info_of s e).policy_weight
    handle_remove (put_info s1 e.info (retire (info_of s1 e))) e none

  -- The state after the counting of `handle_admit`.
  abbrev counted : State K V → ValueEntry V → State K V
  counted s e = record s {
    counters = Cache.saturating_add s.counters 1 (info_of s e).policy_weight;
  }

  -- Retiring and removing an entry that is not to expire right after its admission restores the
  -- deques, the timer wheel, the counters and the map, with or without the write-order deque,
  -- if the entry is alive and unlinked, the new addresses are fresh and its weight does not
  -- make the total overflow.
  pub handle_remove-handle_admit :
      (c : Config) (s : State K V) (e : ValueEntry V)
      → (info_of s e).is_retired ≡ false
      → (expiration_state (info_of s e)).0 ≡ none
      → IsUnlinked s e
      → IsFresh s
      → s.counters.weighted_size + (info_of s e).policy_weight ≤ u64_max
      → Option.map kept (admit_then_remove c s e) ≡ some (kept s)
  unfolding handle_admit link_entry push_back_ao push_back_wo unlink_entry unlink_admitted unlink_ao
      unlink_wo region_deque set_region handle_remove drop_timer handle_remove_without_timer_wheel
      store_policy_gen
  handle_remove-handle_admit c s e l x (ua, uw, ut) (f, g) b =
      elim (Bool-cases (is_write_order_queue_enabled c)) [
        | inl h ↦
            rw (l, update_timer_wheel_quiet (counted s e) e x ut, h)
              (grind (
                arith,
                contains-push_back s.next_addr e.info s.deques.probation,
                unlink-push_back s.next_addr e.info s.deques.probation f,
                contains-push_back (suc s.next_addr) e.info s.deques.write_order,
                unlink-push_back (suc s.next_addr) e.info s.deques.write_order g,
              ))
        | inr h ↦
            rw (l, update_timer_wheel_quiet (counted s e) e x ut, h)
              (grind (
                arith,
                contains-push_back s.next_addr e.info s.deques.probation,
                unlink-push_back s.next_addr e.info s.deques.probation f,
                contains-push_back (suc s.next_addr) e.info s.deques.write_order,
                unlink-push_back (suc s.next_addr) e.info s.deques.write_order g,
              ))
      ]
