-- ===== src/Cache/Timer.antt =====
-- src/sync/base_cache.rs: `update_timer_wheel`. No other thread stores to the entry between the read
-- of its expiration state and the end of the call, except as the state says.
use moka.Base.{ℕ, suc, Bool, true, false, not, ◌&&◌, Option, none, some, ◌>>=◌, if◌then◌else◌}
use moka.EntryInfo.{expiration_state}
use moka.Concurrent.{ValueEntry, set_timer_node}
use moka.TimerWheel.{
  TimerWheel, is_enabled, enable, schedule, reschedule, deschedule, rescheduled, removed,
}
use moka.Cache.{State, is_some}

-- The wheel is enabled if the entry is to expire.
unfoldable pub enable_if : Bool → TimerWheel → TimerWheel
enable_if expires w = if expires && not (is_enabled w) then enable w else w

module _ {K V : Type 0} where
  -- The four cases of the registration, after the wheel was enabled if needed.
  unfoldable pub update_registration :
      State K V → ValueEntry V → Bool → Option ℕ → ℕ → ℕ → Option (State K V)
  update_registration s e false none gen expected = some s
  update_registration s e true none gen expected =
      let (w, timer) = schedule s.shared s.timer_wheel s.next_addr e.info e.nodes gen in
      some (record s {
        timer_wheel = w;
        shared = set_timer_node s.shared e.nodes timer gen;
        next_addr = suc s.next_addr;
      })
  update_registration s e true (some tn) gen expected = do
    (w, sh, result) ← reschedule s.shared s.timer_wheel tn expected
    some (record s {
      timer_wheel = w;
      shared = elim result [
        | none ↦ set_timer_node sh e.nodes none gen
        | some r ↦ elim r [ rescheduled ↦ sh | removed tn' ↦ set_timer_node sh e.nodes none gen ]
      ];
    })
  update_registration s e false (some tn) gen expected = do
    (w, valid) ← deschedule s.timer_wheel tn expected
    some (record s { timer_wheel = w; shared = set_timer_node s.shared e.nodes none gen })

  unfoldable pub update_timer_wheel : State K V → ValueEntry V → Option (State K V)
  unfolding enable_if update_registration
  update_timer_wheel s e =
      let (time, gen) = expiration_state (s.shared.infos e.info) in
      update_registration (record s { timer_wheel = enable_if (is_some time) s.timer_wheel }) e
        (is_some time) ((s.shared.deq_nodes e.nodes).timer_node) gen
        ((s.shared.deq_nodes e.nodes).timer_node_expiry_gen)
