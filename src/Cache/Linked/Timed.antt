-- ===== src/Cache/Linked/Timed.antt =====
-- src/sync/base_cache.rs: what ties the entries to the timer wheel.
use moka.Base.{
  ℕ, suc, ◌≤◌, ◌<◌, ◌≡◌, refl, ◌∙◌, ◌≢◌, ◌⊎◌, inl, inr, [], Option, none, some, arith, ℕ_discrete,
}
use moka.Concurrent.{set_timer_node}
use moka.TimerWheel.{TimerWheel, node_at}
use moka.TimerWheel.Steps.{IsSound, WheelStep}
use moka.Cache.{State}
use moka.Cache.Linked.Frame.{SameLinks, SameLinks-trans}

module _ {K V : Type 0} where
  abbrev pub timer_at : State K V → ℕ → Option ℕ
  timer_at s i = (s.shared.deq_nodes i).timer_node

  -- The pointers to timer nodes reach nodes of the wheel, no two of them the same.
  pub record IsTimed (s : State K V) : Type 0 where
    pub sound : (s.timer_wheel.wheels ≡ []) ⊎ IsSound s.timer_wheel
    pub timer_valid :
        (i a : ℕ) → timer_at s i ≡ some a → (a ≢ 0) × (node_at a s.timer_wheel.wheels ≢ none)
    pub timer_unique : (i j a : ℕ) → timer_at s i ≡ some a → timer_at s j ≡ some a → i ≡ j
    pub timer_fresh : (a : ℕ) → s.next_addr ≤ a → node_at a s.timer_wheel.wheels ≡ none
    pub addr_pos : 0 < s.next_addr

  -- The timers and the allocator may differ, nothing else does.
  pub record SameButTimers (s s' : State K V) : Type 0 where
    pub same_links : SameLinks s s'
    pub same_infos : s'.shared.infos ≡ s.shared.infos
    pub same_cache : s'.cache ≡ s.cache
    pub same_counters : s'.counters ≡ s.counters
    pub same_notified : s'.notified ≡ s.notified
    pub same_sketch : s'.sketch ≡ s.sketch

  pub SameButTimers-trans :
      (s s1 s2 : State K V) → SameButTimers s s1 → SameButTimers s1 s2 → SameButTimers s s2
  SameButTimers-trans s s1 s2 f g = record {
    same_links = SameLinks-trans s s1 s2 f.same_links g.same_links;
    same_infos = g.same_infos ∙ f.same_infos;
    same_cache = g.same_cache ∙ f.same_cache;
    same_counters = g.same_counters ∙ f.same_counters;
    same_notified = g.same_notified ∙ f.same_notified;
    same_sketch = g.same_sketch ∙ f.same_sketch;
  }

  pub rewheeled : (s : State K V) (w : TimerWheel) → SameButTimers s (record s { timer_wheel = w })
  rewheeled s w = record {
    same_links = record {
      same_deques = refl;
      same_count = refl;
      same_ao = λ i. refl;
      same_wo = λ i. refl;
      same_admitted = λ i. refl;
      later = omega arith;
    };
    same_infos = refl;
    same_cache = refl;
    same_counters = refl;
    same_notified = refl;
    same_sketch = refl;
  }

  -- The state with another wheel, in which the timer of `i` is `t`.
  abbrev pub retimed : State K V → TimerWheel → ℕ → Option ℕ → ℕ → ℕ → State K V
  retimed s w i t gen next = record s {
    timer_wheel = w;
    shared = set_timer_node s.shared i t gen;
    next_addr = next;
  }

  pub retimed-SameButTimers :
      (s : State K V) (w : TimerWheel) (i : ℕ) (t : Option ℕ) (gen next : ℕ)
      → s.next_addr ≤ next
      → SameButTimers s (retimed s w i t gen next)
  retimed-SameButTimers s w i t gen next h = record {
    same_links = record {
      same_deques = refl;
      same_count = refl;
      same_ao = λ j. ground arith;
      same_wo = λ j. ground arith;
      same_admitted = λ j. refl;
      later = h;
    };
    same_infos = refl;
    same_cache = refl;
    same_counters = refl;
    same_notified = refl;
    same_sketch = refl;
  }

  module _ (s : State K V) (l : IsTimed s) (i gen : ℕ) where
    -- A wheel that changed at the timer of `i` only, which is cleared.
    pub cleared :
        (a : ℕ) (w : TimerWheel)
        → timer_at s i ≡ some a
        → WheelStep a s.timer_wheel w
        → IsTimed (retimed s w i none gen s.next_addr)
    cleared a w t step = record {
      sound = inr step.still_sound;
      timer_valid = λ j b f. ground (arith, l.timer_valid j b, l.timer_unique i j a, step.others b);
      timer_unique = λ j k b f g. ground (arith, l.timer_unique j k b);
      timer_fresh =
          λ b f. ground (arith, l.timer_fresh b, step.others b, l.timer_valid i a, l.timer_fresh a);
      addr_pos = l.addr_pos;
    }

    -- The same, with another entry's timer cleared first.
    pub cleared_too :
        (a n : ℕ) (w : TimerWheel)
        → timer_at s i ≡ some a
        → WheelStep a s.timer_wheel w
        → IsTimed (retimed (retimed s w n none 0 s.next_addr) w i none gen s.next_addr)
    cleared_too a n w t step = record {
      sound = inr step.still_sound;
      timer_valid = λ j b f. ground (arith, l.timer_valid j b, l.timer_unique i j a, step.others b);
      timer_unique = λ j k b f g. ground (arith, l.timer_unique j k b);
      timer_fresh =
          λ b f. ground (arith, l.timer_fresh b, step.others b, l.timer_valid i a, l.timer_fresh a);
      addr_pos = l.addr_pos;
    }

    -- The timer of `i` has another place.
    pub moved_on :
        (a : ℕ) (w : TimerWheel)
        → timer_at s i ≡ some a
        → WheelStep a s.timer_wheel w
        → node_at a w.wheels ≢ none
        → IsTimed (record s { timer_wheel = w })
    moved_on a w t step n = record {
      sound = inr step.still_sound;
      timer_valid = λ j b f. elim (ℕ_discrete b a) [
        | yes e ↦ ((l.timer_valid j b f).0, rw e n)
        | no e ↦ let (x, y) = l.timer_valid j b f in (x, rw (step.others b e) y)
      ];
      timer_unique = l.timer_unique;
      timer_fresh =
          λ b f. ground (arith, l.timer_fresh b, step.others b, l.timer_valid i a, l.timer_fresh a);
      addr_pos = l.addr_pos;
    }

    -- `i`, which had no timer, has one at the next address.
    pub registered_anew :
        (w : TimerWheel)
        → timer_at s i ≡ none
        → WheelStep s.next_addr s.timer_wheel w
        → node_at s.next_addr w.wheels ≢ none
        → IsTimed (retimed s w i (some s.next_addr) gen (suc s.next_addr))
    registered_anew w t step n = record {
      sound = inr step.still_sound;
      timer_valid = λ j b f. elim (ℕ_discrete b s.next_addr) [
        | yes e ↦ (omega (arith, e, l.addr_pos), rw e n)
        | no e ↦ ground (arith, l.timer_valid j b, step.others b e)
      ];
      timer_unique = λ j k b f g.
          ground
            (arith, l.timer_unique j k b, l.timer_valid j b, l.timer_valid k b, l.timer_fresh b);
      timer_fresh = λ b f. ground (arith, l.timer_fresh b, step.others b);
      addr_pos = omega arith;
    }

    pub untimed :
        timer_at s i ≡ none → IsTimed (retimed s s.timer_wheel i none gen (suc s.next_addr))
    untimed t = record {
      sound = l.sound;
      timer_valid = λ j b f. ground (arith, l.timer_valid j b);
      timer_unique = λ j k b f g. ground (arith, l.timer_unique j k b);
      timer_fresh = λ b f. l.timer_fresh b (omega arith);
      addr_pos = omega arith;
    }

  -- A live timer means that the wheel is in order.
  pub live_wheel :
      (s : State K V) (i a : ℕ) → IsTimed s → timer_at s i ≡ some a → IsSound s.timer_wheel
  live_wheel s i a l t = elim (l.sound) [
    | inr h ↦ h
    | inl h ↦ absurd ((l.timer_valid i a t).1 (rw h (no_wheels a)))
  ]
    where
      no_wheels : (b : ℕ) → node_at b [] ≡ none
      no_wheels b = unfold node_at in refl

  -- A step that succeeds, keeps the timers in order and changes nothing else.
  abbrev pub Retimes : State K V → Option (State K V) → Type 0
  Retimes s r = (s' : State K V) × (r ≡ some s') × IsTimed s' × SameButTimers s s'
