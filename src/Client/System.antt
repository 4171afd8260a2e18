-- ===== src/Client/System.antt =====
-- src/sync/base_cache.rs and src/sync/cache.rs: the cache with its two channels, as the calls of its
-- clients and the runs of its maintenance take turns. A call that changes the map and the sending
-- of its message are two steps: between them, and while the channel is full, the message waits
-- with its thread (the loop of `schedule_write_op`). Any thread may take the next step.
use moka.Base.{
  Bool, ℕ, zero, suc, ◌+◌, ◌*◌, List, [], ◌∷◌, ◌++◌, Option, none, some, ◌>>=◌, ltb, length,
  if◌then◌else◌,
}
use moka.Time.{Instant}
use moka.Housekeeper.{read_log_flush_point, write_log_flush_point}
use moka.Concurrent.{ReadOp, WriteOp}
use moka.Cache.{State, Config}
use moka.Cache.Maintenance.{
  process_reads, process_writes, expire_timer, sweep_deques, evict_for_size, run_step,
}
use moka.Invalidator.{Invalidator}
use moka.Get
use moka.Get.{do_get}
use moka.Client.{Expiry, Insertion, insert_with_hash, invalidate_with_hash}

abbrev pub default_max_log_sync_repeats : ℕ
default_max_log_sync_repeats = 4

abbrev pub read_log_ch_size : ℕ
read_log_ch_size = read_log_flush_point * (default_max_log_sync_repeats + 2)

abbrev pub write_log_ch_size : ℕ
write_log_ch_size = write_log_flush_point * (default_max_log_sync_repeats + 2)

-- `waiting` are the messages that their threads have still to send.
pub record System (K V : Type 0) : Type 0 where
  pub config : Config
  pub state : State K V
  pub read_op_ch : List (ReadOp V)
  pub write_op_ch : List (WriteOp K V)
  pub waiting : List (WriteOp K V)

-- The last five are the work of the maintenance, with the number of messages that it takes.
pub data Step (K V : Type 0) : Type 0 where
  insert : Insertion K V → Step K V
  invalidate : K → Bool → Instant → Step K V
  invalidate_all : Instant → Step K V
  lookup : K → ℕ → Instant → List ℕ → Step K V
  send : ℕ → Step K V
  read_log : ℕ → Step K V
  write_log : ℕ → Step K V
  timer : ℕ → Instant → Step K V
  sweep : ℕ → Instant → Step K V
  evict : ℕ → Step K V

module _ {ℓ} {A : Type ℓ} where
  abbrev pub take : ℕ → List A → List A
  take zero xs = []
  take (suc n) [] = []
  take (suc n) (x ∷ xs) = x ∷ take n xs

  abbrev pub drop : ℕ → List A → List A
  drop zero xs = xs
  drop (suc n) [] = []
  drop (suc n) (x ∷ xs) = drop n xs

  abbrev pub picked_after : A → Option (A × List A) → Option (A × List A)
  picked_after x none = none
  picked_after x (some (y, ys)) = some (y, x ∷ ys)

  -- The element at a place, and the list without it.
  abbrev pub pick : ℕ → List A → Option (A × List A)
  pick n [] = none
  pick zero (x ∷ xs) = some (x, xs)
  pick (suc n) (x ∷ xs) = picked_after x (pick n xs)

  abbrev pub to_list : Option A → List A
  to_list none = []
  to_list (some a) = a ∷ []

module _ {V : Type 0} where
  -- `record_read_op`: the read is discarded when the channel is full.
  unfoldable pub record_read_op : List (ReadOp V) → Option (ReadOp V) → List (ReadOp V)
  record_read_op ch none = ch
  record_read_op ch (some op) = if ltb (length ch) read_log_ch_size then ch ++ (op ∷ []) else ch

module _ {K V : Type 0} where
  abbrev pub scheduled : System K V → Option (WriteOp K V × List (WriteOp K V)) → System K V
  scheduled y none = y
  scheduled y (some (op, others)) =
      if ltb (length y.write_op_ch) write_log_ch_size
      then record y { write_op_ch = y.write_op_ch ++ (op ∷ []); waiting = others }
      else y

  -- A turn of the loop of `schedule_write_op` for a message that waits.
  unfoldable pub schedule_write_op : System K V → ℕ → System K V
  schedule_write_op y n = scheduled y (pick n y.waiting)

  abbrev pub with_state : System K V → Option (State K V) → Option (System K V × Option V)
  with_state y none = none
  with_state y (some s) = some (record y { state = s }, none)

  abbrev pub expire_after_read : Option (Expiry K V) → Option (Get.ExpireAfterRead K V)
  expire_after_read none = none
  expire_after_read (some user) = some user.expire_after_read

  module _ (dec : Discrete K) (expiry : Option (Expiry K V))
      (invalidator : Option (Invalidator K V)) where
    -- The system after a step, and what the client gets to see.
    unfoldable pub take_step : System K V → Step K V → Option (System K V × Option V)
    unfolding insert_with_hash invalidate_with_hash do_get record_read_op schedule_write_op run_step
        Get.invalidate_all
    take_step y (insert x) =
        let (s, op) = insert_with_hash y.config expiry dec y.state x in
        some (record y { state = s; waiting = to_list op ++ y.waiting }, none)
    take_step y (invalidate key need_value now) =
        let (s, op, value) = invalidate_with_hash dec y.config y.state key need_value now in
        some (record y { state = s; waiting = to_list op ++ y.waiting }, value)
    take_step y (invalidate_all now) =
        some (record y { config = Get.invalidate_all y.config now }, none)
    take_step y (lookup key hash now others) = do
      (s, value, op) ←
          do_get dec y.config invalidator none (expire_after_read expiry) others y.state key hash
            now
      some (record y { state = s; read_op_ch = record_read_op y.read_op_ch op }, value)
    take_step y (send n) = some (schedule_write_op y n, none)
    take_step y (read_log n) =
        with_state (record y { read_op_ch = drop n y.read_op_ch })
          (run_step dec y.config y.state (process_reads (take n y.read_op_ch)))
    take_step y (write_log n) =
        with_state (record y { write_op_ch = drop n y.write_op_ch })
          (run_step dec y.config y.state (process_writes (take n y.write_op_ch)))
    take_step y (timer i now) = with_state y (run_step dec y.config y.state (expire_timer i now))
    take_step y (sweep batch_size now) =
        with_state y (run_step dec y.config y.state (sweep_deques batch_size now))
    take_step y (evict batch_size) =
        with_state y (run_step dec y.config y.state (evict_for_size batch_size))

    -- A run, and what the clients got to see.
    unfoldable pub run : System K V → List (Step K V) → Option (System K V × List (Option V))
    unfolding take_step
    run y [] = some (y, [])
    run y (x ∷ xs) = do
      (y1, value) ← take_step y x
      (y2, values) ← run y1 xs
      some (y2, value ∷ values)
