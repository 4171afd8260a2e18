-- ===== src/TimerWheel/Iter.antt =====
-- src/common/timer_wheel.rs: `advance` and its iterator `TimerEventsIter`, in a build without
-- `cfg(test)`. A round is one pass of the `loop` of `next`.
use moka.Base.{
  ℕ, zero, suc, ◌+◌, ◌-◌, ◌/◌, ◌^◌, min, List, [], ◌∷◌, Bool, true, false, Option, none, some,
  bit_and, leb, if◌then◌else◌,
}
use moka.Time.{Instant}
use moka.EntryInfo.{expiration_state}
use moka.Concurrent.{Shared, set_timer_node}
use moka.TimerWheel.{
  TimerWheel, TimerNode, sentinel, entry, rescheduled, removed, bucket_counts, shift, wheel_count,
  time_nanos, schedule_existing_node, pop_timer_node, reset_timer_node_positions,
}

pub data TimerEvent : Type 0 where
  expired : ℕ × TimerNode → TimerEvent
  moved : TimerEvent
  descheduled : TimerEvent

-- The wheel that the iterator borrows is its field, and so are the shared objects.
pub record TimerEventsIter {ℓ} (K : Type ℓ) : Type ℓ where
  pub timer_wheel : TimerWheel
  pub shared : Shared K
  pub previous_time : Instant
  pub current_time : Instant
  pub is_done : Bool
  pub level : ℕ
  pub index : ℕ
  pub end_index : ℕ
  pub index_mask : ℕ
  pub is_new_level : Bool
  pub is_new_index : Bool

-- How a round of the loop ends.
pub data Round {ℓ} (K : Type ℓ) : Type ℓ where
  again : TimerEventsIter K → Round K
  stop : TimerEventsIter K → Round K
  yields : TimerEvent → TimerEventsIter K → Round K
  fault : Round K

module _ {ℓ} {K : Type ℓ} where
  unfoldable pub advance : Shared K → TimerWheel → Instant → TimerEventsIter K
  advance sh w current_time = record {
    timer_wheel = record w { current = current_time };
    shared = sh;
    previous_time = w.current;
    current_time = current_time;
    is_done = false;
    level = 0;
    index = 0;
    end_index = 0;
    index_mask = 0;
    is_new_level = true;
    is_new_index = true;
  }

  -- `drop`: an iterator that is left early puts the time back.
  unfoldable pub finish : TimerEventsIter K → TimerWheel × Shared K
  finish it = (
    if it.is_done then it.timer_wheel else record (it.timer_wheel) { current = it.previous_time },
    it.shared,
  )

  abbrev pub previous_ticks : TimerEventsIter K → ℕ
  previous_ticks it = time_nanos it.timer_wheel it.previous_time / 2 ^ shift it.level

  abbrev pub current_ticks : TimerEventsIter K → ℕ
  current_ticks it = time_nanos it.timer_wheel it.current_time / 2 ^ shift it.level

  -- The block under `is_new_level`.
  unfoldable pub enter_level : TimerEventsIter K → TimerEventsIter K
  enter_level it =
      let mask = bucket_counts it.level - 1 in
      let index = bit_and (previous_ticks it) mask in
      let steps = min (current_ticks it - previous_ticks it + 1) (bucket_counts it.level) in
      if leb (current_ticks it) (previous_ticks it)
      then record it { is_done = true }
      else record it {
        index_mask = mask;
        index = index;
        end_index = index + steps;
        is_new_level = false;
        is_new_index = true;
      }

  -- The end of a round that finds no more timer in the bucket.
  unfoldable pub next_index : TimerEventsIter K → Round K
  next_index it =
      let it1 = record it { index = it.index + 1; is_new_index = true } in
      let it2 = record it1 { level = it1.level + 1 } in
      if leb it1.end_index it1.index
      then if leb wheel_count it2.level
        then stop (record it2 { is_done = true })
        else again (record it2 { is_new_level = true })
      else again it1

  -- What becomes of a node that was popped.
  unfoldable pub handle_node : TimerEventsIter K → ℕ → TimerNode → Round K
  handle_node it addr sentinel = fault
  handle_node it addr (entry pos gen info nodes) =
      let node = entry pos gen info nodes in
      let unset = record it { shared = set_timer_node it.shared nodes none 0 } in
      elim (expiration_state (it.shared.infos info)).0 [
        | none ↦ again unset
        | some t ↦
            let moving : Round K =
              elim (schedule_existing_node it.shared it.timer_wheel addr node) [
                | none ↦ fault
                | some (w, sh, rescheduled) ↦
                    yields moved (record it { timer_wheel = w; shared = sh })
                | some (w, sh, removed n) ↦
                    yields descheduled
                      (record it { timer_wheel = w; shared = set_timer_node sh nodes none 0 })
              ] in
            if leb t it.current_time then yields (expired (addr, node)) unset else moving
      ]

  -- The part of a round behind the block under `is_new_index`.
  unfoldable pub pop_round : TimerEventsIter K → Round K
  pop_round it =
      let i = bit_and it.index it.index_mask in
      let (w, popped) = pop_timer_node it.timer_wheel it.level i in
      elim popped [
        | none ↦ next_index (record it { timer_wheel = w })
        | some (addr, node) ↦ handle_node (record it { timer_wheel = w }) addr node
      ]

  unfoldable pub index_round : TimerEventsIter K → Round K
  index_round it =
      let i = bit_and it.index it.index_mask in
      if it.is_new_index
      then elim (reset_timer_node_positions it.timer_wheel it.level i) [
        | none ↦ fault
        | some w ↦ pop_round (record it { timer_wheel = w; is_new_index = false })
      ]
      else pop_round it

  unfoldable pub round : TimerEventsIter K → Round K
  round it =
      let entered = enter_level it in
      if it.is_new_level
      then if entered.is_done then stop entered else index_round entered
      else index_round it

  -- `next` on fuel: the iterator and its event, or `none` for a fault or fuel that ran out.
  unfoldable pub next : ℕ → TimerEventsIter K → Option (TimerEventsIter K × Option TimerEvent)
  next zero it = none
  next (suc fuel) it = elim it.is_done [
    | true ↦ some (it, none)
    | false ↦ elim (round it) [
      | again it' ↦ next fuel it'
      | stop it' ↦ some (it', none)
      | yields e it' ↦ some (it', some e)
      | fault ↦ none
    ]
  ]

  -- The loop of a caller that takes every event, on fuel.
  unfoldable pub drain : ℕ → ℕ → TimerEventsIter K → Option (TimerEventsIter K × List TimerEvent)
  drain zero inner it = none
  drain (suc fuel) inner it = elim (next inner it) [
    | none ↦ none
    | some (it', none) ↦ some (it', [])
    | some (it', some e) ↦ elim (drain fuel inner it') [
      | none ↦ none
      | some (last, es) ↦ some (last, e ∷ es)
    ]
  ]
