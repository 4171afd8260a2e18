-- ===== src/Cache/Linked/Retime.antt =====
-- src/sync/base_cache.rs: the timers over `update_timer_wheel` and the dropping of a timer.
use moka.Base.{
  ℕ, zero, suc, ◌≡◌, refl, sym, ap, subst, ◌≢◌, inl, inr, [], ◌∷◌, Bool, true, false, not, Option,
  none, some, Option-cases, ◌==◌, length, arith,
}
use moka.EntryInfo.{expiration_state}
use moka.Concurrent.{ValueEntry}
use moka.TimerWheel.{TimerWheel, is_enabled, enable, new_wheel, node_at, find_in, sentinel}
use moka.TimerWheel.Links.{enable-IsShaped}
use moka.TimerWheel.Steps.{
  IsSound, deschedule-WheelStep, reschedule_ends, stale, moved, gone, schedule-WheelStep,
}
use moka.Cache.{State, is_some, info_of}
use moka.Cache.Timer.{enable_if, update_registration, update_timer_wheel}
use moka.Cache.Policy.{drop_timer}
use moka.Cache.Linked.Frame.{SameLinks-refl}
use moka.Base.{replicate}
use moka.Queue.{find}
use moka.TimerWheel.Pointers.{AllBuckets}
use moka.TimerWheel.Steps.{WheelStep-refl}
use moka.Cache.Linked.Timed.{
  SameButTimers-trans, rewheeled, IsTimed, timer_at, retimed, retimed-SameButTimers, cleared,
  cleared_too, moved_on, registered_anew, untimed, live_wheel, Retimes,
}

find_in-replicate : (a n : ℕ) → a ≢ 0 → find_in a (replicate n ((0, sentinel) ∷ [])) ≡ none
unfolding find_in find
find_in-replicate a zero h = refl
find_in-replicate a (suc n) h = ground (arith, find_in-replicate a n h)

AllBuckets-replicate : (n : ℕ) → AllBuckets (replicate n ((0, sentinel) ∷ []))
AllBuckets-replicate zero = tt
AllBuckets-replicate (suc n) = ((λ e. refl, tt), AllBuckets-replicate n)

find_in-new_wheel : (a n : ℕ) → a ≢ 0 → find_in a (new_wheel n) ≡ none
unfolding new_wheel
find_in-new_wheel a n h = find_in-replicate a n h

AllBuckets-new_wheel : (n : ℕ) → AllBuckets (new_wheel n)
unfolding new_wheel
AllBuckets-new_wheel n = AllBuckets-replicate n

node_at-enable : (w : TimerWheel) (a : ℕ) → a ≢ 0 → node_at a (enable w).wheels ≡ none
unfolding enable node_at
node_at-enable w a h = ground (
  arith,
  find_in-new_wheel a 64 h,
  find_in-new_wheel a 32 h,
  find_in-new_wheel a 4 h,
  find_in-new_wheel a 1 h,
)

enable-IsSound : (w : TimerWheel) → IsSound (enable w)
unfolding enable
enable-IsSound w = record {
  shaped = enable-IsShaped w;
  at_zero = (
    AllBuckets-new_wheel 64,
    (
      AllBuckets-new_wheel 64,
      (AllBuckets-new_wheel 32, (AllBuckets-new_wheel 4, (AllBuckets-new_wheel 1, tt))),
    ),
  );
}

no_wheels : (b : ℕ) → node_at b [] ≡ none
unfolding node_at
no_wheels b = refl

module _ {K V : Type 0} (s : State K V) (l : IsTimed s) where
  -- Enabling keeps the timers in order, and an enabled wheel is sound.
  enabled : s.timer_wheel.wheels ≡ [] → IsTimed (record s { timer_wheel = enable s.timer_wheel })
  enabled h = record {
    sound = inr (enable-IsSound s.timer_wheel);
    timer_valid = λ i a t. absurd ((l.timer_valid i a t).1 (rw h (no_wheels a)));
    timer_unique = l.timer_unique;
    timer_fresh = λ a b. node_at-enable s.timer_wheel a (omega (arith, l.addr_pos, b));
    addr_pos = l.addr_pos;
  }

  enable_if_new : s.timer_wheel.wheels ≡ [] → enable_if true s.timer_wheel ≡ enable s.timer_wheel
  unfolding enable_if
  enable_if_new h =
      let e : is_enabled s.timer_wheel ≡ false = ap (λ x. not (length x == 0)) h in
      ground (arith, e)

  enable_if_old : (x : Bool) → IsSound s.timer_wheel → enable_if x s.timer_wheel ≡ s.timer_wheel
  unfolding enable_if
  enable_if_old x h =
      let e : is_enabled s.timer_wheel ≡ true = ground (arith, h.shaped.0) in ground (arith, e)

  enable_if_off : enable_if false s.timer_wheel ≡ s.timer_wheel
  unfolding enable_if
  enable_if_off = refl

  -- With the wheel as `update_timer_wheel` enables it, which is sound if the entry is to expire.
  abbrev ready : Bool → State K V
  ready x = record s { timer_wheel = enable_if x s.timer_wheel }

  ready-IsTimed : (x : Bool) → IsTimed (ready x)
  ready-IsTimed false = subst (λ w. IsTimed (record s { timer_wheel = w })) (sym enable_if_off) l
  ready-IsTimed true = elim (l.sound) [
    | inl h ↦
        subst (λ w. IsTimed (record s { timer_wheel = w })) (sym (enable_if_new h)) (enabled h)
    | inr h ↦ subst (λ w. IsTimed (record s { timer_wheel = w })) (sym (enable_if_old true h)) l
  ]

  ready-IsSound : IsSound (enable_if true s.timer_wheel)
  ready-IsSound = elim (l.sound) [
    | inl h ↦ subst IsSound (sym (enable_if_new h)) (enable-IsSound s.timer_wheel)
    | inr h ↦ subst IsSound (sym (enable_if_old true h)) h
  ]

module _ {K V : Type 0} (s : State K V) (l : IsTimed s) (e : ValueEntry V) where
  -- The four cases of the registration, on a state whose wheel is sound if the entry is to expire.
  registered :
      (x : Bool) (t : Option ℕ) (gen expected : ℕ)
      → timer_at s e.nodes ≡ t
      → (x ≡ true → IsSound s.timer_wheel)
      → Retimes s (update_registration s e x t gen expected)
  unfolding update_registration
  registered false none gen expected h g = (
    s,
    refl,
    l,
    record {
      same_links = SameLinks-refl s;
      same_infos = refl;
      same_cache = refl;
      same_counters = refl;
      same_notified = refl;
      same_sketch = refl;
    },
  )
  registered true none gen expected h g =
      elim (schedule-WheelStep s.shared s.timer_wheel s.next_addr e.info e.nodes gen (g refl)) [
        | inl k ↦ (
          retimed s s.timer_wheel e.nodes none gen (suc s.next_addr),
          rw k refl,
          untimed s l e.nodes gen h,
          retimed-SameButTimers s s.timer_wheel e.nodes none gen (suc s.next_addr) (omega arith),
        )
        | inr (w, k, step, n) ↦ (
          retimed s w e.nodes (some s.next_addr) gen (suc s.next_addr),
          rw k refl,
          registered_anew s l e.nodes gen w h step n,
          retimed-SameButTimers s w e.nodes (some s.next_addr) gen (suc s.next_addr) (omega arith),
        )
      ]
  registered true (some a) gen expected h g =
      let (z, n) = l.timer_valid e.nodes a h in
      elim (reschedule_ends s.timer_wheel a expected (live_wheel s e.nodes a l h) z n s.shared) [
        | stale k ↦ (
          retimed s s.timer_wheel e.nodes none gen s.next_addr,
          rw k refl,
          cleared s l e.nodes gen a s.timer_wheel h
              (WheelStep-refl a s.timer_wheel (live_wheel s e.nodes a l h)),
          retimed-SameButTimers s s.timer_wheel e.nodes none gen s.next_addr (omega arith),
        )
        | moved w k step m ↦ (
          record s { timer_wheel = w },
          rw k refl,
          moved_on s l e.nodes gen a w h step m,
          rewheeled s w,
        )
        | gone w j node k step ↦ (
          retimed (retimed s w j none 0 s.next_addr) w e.nodes none gen s.next_addr,
          rw k refl,
          cleared_too s l e.nodes gen a j w h step,
          SameButTimers-trans s (retimed s w j none 0 s.next_addr)
              (retimed (retimed s w j none 0 s.next_addr) w e.nodes none gen s.next_addr)
              (retimed-SameButTimers s w j none 0 s.next_addr (omega arith))
              (retimed-SameButTimers (retimed s w j none 0 s.next_addr) w e.nodes none gen
                s.next_addr (omega arith)),
        )
      ]
  registered false (some a) gen expected h g =
      let (z, n) = l.timer_valid e.nodes a h in
      let (w, valid, k, step) =
        deschedule-WheelStep s.timer_wheel a expected (live_wheel s e.nodes a l h) z n in
      (
        retimed s w e.nodes none gen s.next_addr,
        rw k refl,
        cleared s l e.nodes gen a w h step,
        retimed-SameButTimers s w e.nodes none gen s.next_addr (omega arith),
      )

-- `update_timer_wheel` succeeds, keeps the timers in order, and changes nothing else.
module _ {K V : Type 0} (s : State K V) (l : IsTimed s) (e : ValueEntry V) where
  pub update_timer_wheel-IsTimed : Retimes s (update_timer_wheel s e)
  unfolding update_timer_wheel
  update_timer_wheel-IsTimed =
      let x = is_some (expiration_state (info_of s e)).0 in
      let (s', k, l', f) =
        registered (ready s l x) (ready-IsTimed s l x) e x (timer_at s e.nodes)
          (expiration_state (info_of s e)).1 ((s.shared.deq_nodes e.nodes).timer_node_expiry_gen)
          refl
          (λ h. subst (λ y. IsSound (enable_if y s.timer_wheel)) (sym h) (ready-IsSound s l)) in
      (
        s',
        k,
        l',
        SameButTimers-trans s (ready s l x) s' (rewheeled s (enable_if x s.timer_wheel)) f,
      )

  pub drop_timer-IsTimed : Retimes s (drop_timer s e)
  unfolding drop_timer
  drop_timer-IsTimed = elim (Option-cases (timer_at s e.nodes)) [
    | inl h ↦ (
      retimed s s.timer_wheel e.nodes none 0 s.next_addr,
      rw (h, drop_timer) refl,
      untimed_here h,
      retimed-SameButTimers s s.timer_wheel e.nodes none 0 s.next_addr (omega arith),
    )
    | inr (a, h) ↦
        let (z, n) = l.timer_valid e.nodes a h in
        let (w, valid, k, step) =
          deschedule-WheelStep s.timer_wheel a ((s.shared.deq_nodes e.nodes).timer_node_expiry_gen)
            (live_wheel s e.nodes a l h) z n in
        (
          retimed s w e.nodes none 0 s.next_addr,
          rw (h, drop_timer) (rw k refl),
          cleared s l e.nodes 0 a w h step,
          retimed-SameButTimers s w e.nodes none 0 s.next_addr (omega arith),
        )
  ]
    where
      untimed_here :
          timer_at s e.nodes ≡ none → IsTimed (retimed s s.timer_wheel e.nodes none 0 s.next_addr)
      untimed_here h = record {
        sound = l.sound;
        timer_valid = λ j b f. ground (arith, l.timer_valid j b);
        timer_unique = λ j k b f g. ground (arith, l.timer_unique j k b);
        timer_fresh = λ b f. l.timer_fresh b f;
        addr_pos = l.addr_pos;
      }
