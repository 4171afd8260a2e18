-- ===== src/Client/Steps.antt =====
-- src/sync/base_cache.rs and src/sync/cache.rs: the cache against the contents, over every step.
use moka.Base.{◌≡◌, refl, ap, subst, sym, Option, none, some}
use moka.Cache.{State}
use moka.Cache.Maintenance.{
  MaintenanceStep, process_reads, process_writes, expire_timer, sweep_deques, evict_for_size,
  run_step,
}
use moka.Cache.Invariant.{IsConsistent, Keeps}
use moka.Cache.Invariant.Moves.{IsReadable, AllReadable}
use moka.Cache.Invariant.Handle.{IsWritable, AllWritable}
use moka.Cache.Invariant.Steps.{IsSteppable, run_step-Keeps}
use moka.Invalidator.{Invalidator}
use moka.Get
use moka.Get.{do_get, is_map_disabled}
use moka.Client.{Expiry}
use moka.Client.System.{
  System, Step, insert, invalidate, invalidate_all, lookup, send, read_log, write_log, timer, sweep,
  evict, take, drop, schedule_write_op, with_state, take_step,
}
use moka.Client.Contents.{Contents, Agrees}
use moka.Client.Messages.{
  All-take, All-drop, schedule_write_op-HasWritable, schedule_write_op-SameRest,
}
use moka.Client.Refines.{IsSound, IsLegal, Ends, insert-Ends, invalidate-Ends, lookup-Ends}

module _ {K V : Type 0} (dec : Discrete K) (expiry : Option (Expiry K V))
    (invalidator : Option (Invalidator K V)) (m : Contents K V) (y : System K V)
    (h : IsSound m y) where
  -- The maintenance steps: `y0` is the system without the messages that the step takes.
  kept :
      (y0 : System K V) (r : Option (State K V))
      → AllReadable y0.read_op_ch
      → AllWritable y0.write_op_ch
      → AllWritable y0.waiting
      → Keeps (Agrees m) r
      → (y1 : System K V) × (with_state y0 r ≡ some (y1, none))
        × IsSound m y1
        × (y1.config ≡ y0.config)
  kept y0 r a b w (s1, k, h1) = (
    record y0 { state = s1 },
    ap (with_state y0) k,
    record { state_sound = h1; reads_sound = a; writes_sound = b; waiting_sound = w },
    refl,
  )

  maintained :
      (step : MaintenanceStep K V)
      → IsSteppable step
      → Keeps (Agrees m) (run_step dec y.config y.state step)
  maintained step p = run_step-Keeps dec y.config y.state step h.state_sound p

  settled :
      (step : MaintenanceStep K V)
      → IsSteppable step
      → (y1 : System K V) × (value : Option V) × (with_state y (run_step dec y.config y.state step)
          ≡ some (y1, value))
        × IsSound m y1
        × (value ≡ none)
        × (is_map_disabled y1.config ≡ is_map_disabled y.config)
  settled step p =
      let (y1, k, h1, g) =
        kept y (run_step dec y.config y.state step) h.reads_sound h.writes_sound h.waiting_sound
          (maintained step p) in
      (y1, none, k, h1, refl, ap is_map_disabled g)

  pub take_step-Ends :
      (x : Step K V) → IsLegal dec expiry invalidator y x → Ends dec expiry invalidator m y x
  unfolding take_step Get.invalidate_all
  take_step-Ends (insert x) l = insert-Ends dec expiry invalidator m y h x l
  take_step-Ends (invalidate key need_value now) l =
      invalidate-Ends dec expiry invalidator m y h key need_value now
  take_step-Ends (invalidate_all now) l = (
    record y { config = Get.invalidate_all y.config now },
    none,
    refl,
    record {
      state_sound = h.state_sound;
      reads_sound = h.reads_sound;
      writes_sound = h.writes_sound;
      waiting_sound = h.waiting_sound;
    },
    refl,
    refl,
  )
  take_step-Ends (lookup key hash now others) l =
      lookup-Ends dec expiry invalidator m y h key hash now others l
  take_step-Ends (send n) l =
      let (b, w) = schedule_write_op-HasWritable y n (h.writes_sound, h.waiting_sound) in
      let (a, r, g) = schedule_write_op-SameRest y n in
      (
        schedule_write_op y n,
        none,
        refl,
        record {
          state_sound = subst (IsConsistent (Agrees m)) (sym a) h.state_sound;
          reads_sound = subst AllReadable (sym r) h.reads_sound;
          writes_sound = b;
          waiting_sound = w;
        },
        refl,
        ap is_map_disabled g,
      )
  take_step-Ends (read_log n) l =
      let y0 = record y { read_op_ch = drop n y.read_op_ch } in
      let (y1, k, h1, g) =
        kept y0 (run_step dec y.config y.state (process_reads (take n y.read_op_ch)))
          (All-drop IsReadable n y.read_op_ch h.reads_sound) h.writes_sound h.waiting_sound
          (maintained (process_reads (take n y.read_op_ch))
            (All-take IsReadable n y.read_op_ch h.reads_sound)) in
      (y1, none, k, h1, refl, ap is_map_disabled g)
  take_step-Ends (write_log n) l =
      let y0 = record y { write_op_ch = drop n y.write_op_ch } in
      let (y1, k, h1, g) =
        kept y0 (run_step dec y.config y.state (process_writes (take n y.write_op_ch)))
          h.reads_sound (All-drop IsWritable n y.write_op_ch h.writes_sound) h.waiting_sound
          (maintained (process_writes (take n y.write_op_ch))
            (All-take IsWritable n y.write_op_ch h.writes_sound)) in
      (y1, none, k, h1, refl, ap is_map_disabled g)
  take_step-Ends (timer i now) l = settled (expire_timer i now) tt
  take_step-Ends (sweep batch_size now) l = settled (sweep_deques batch_size now) tt
  take_step-Ends (evict batch_size) l = settled (evict_for_size batch_size) tt
