-- ===== src/TimerWheel/Steps.antt =====
-- src/common/timer_wheel.rs: the pointers to timer nodes over the operations on one of them.
use moka.Base.{
  ℕ, ◌≡◌, refl, sym, ◌∙◌, ◌≢◌, ◌⊎◌, inl, inr, [], ◌∷◌, Bool, true, false, Option, none, some,
  Option-cases, Bool-cases, ◌==◌, arith,
}
use moka.EntryInfo.{expiration_state}
use moka.Concurrent.{Shared, set_timer_node}
use moka.Queue.{Queue, find, unlink, push_back}
use moka.Queue.Cursor.{find-unlink_ne, find-push_back_ne}
use moka.Time.{Instant}
use moka.TimerWheel.{
  TimerWheel, TimerNode, sentinel, entry, bucket, set_bucket, bucket_indices, node_at, schedule,
  deschedule, reschedule, unlink_timer, relink, schedule_existing_node, rescheduled, removed,
}
use moka.TimerWheel.Buckets.{bucket_indices_bounds}
use moka.TimerWheel.Links.{IsShaped}
use moka.TimerWheel.Pointers.{
  node_at-set_bucket, node_at_bucket, AllWheels, AllWheels-bucket, AllWheels-set_bucket,
  SentinelsAtZero-unlink, SentinelsAtZero-push_back, IsShaped-set_bucket, node_at_sentinel,
}

-- A wheel in order, and a change that concerns the address `a` only.
pub record IsSound (w : TimerWheel) : Type 0 where
  pub shaped : IsShaped w
  pub at_zero : AllWheels w.wheels

pub record WheelStep (a : ℕ) (w w' : TimerWheel) : Type 0 where
  pub still_sound : IsSound w'
  pub others : (b : ℕ) → b ≢ a → node_at b w'.wheels ≡ node_at b w.wheels

pub WheelStep-refl : (a : ℕ) (w : TimerWheel) → IsSound w → WheelStep a w w
WheelStep-refl a w h = record { still_sound = h; others = λ b n. refl }

pub WheelStep-trans :
    (a : ℕ) (w v u : TimerWheel) → WheelStep a w v → WheelStep a v u → WheelStep a w u
WheelStep-trans a w v u f g = record {
  still_sound = g.still_sound;
  others = λ b n. g.others b n ∙ f.others b n;
}

module _ (w : TimerWheel) (h : IsSound w) (a : ℕ) where
  WheelStep-unlink : (l i : ℕ) → WheelStep a w (set_bucket w l i (unlink a (bucket w l i)))
  WheelStep-unlink l i = record {
    still_sound = record {
      shaped = IsShaped-set_bucket w l i (unlink a (bucket w l i)) h.shaped;
      at_zero =
          AllWheels-set_bucket w l i (unlink a (bucket w l i)) h.at_zero
            (SentinelsAtZero-unlink a (bucket w l i) (AllWheels-bucket w l i h.at_zero));
    };
    others = λ b n.
        node_at-set_bucket w b l i (unlink a (bucket w l i))
          (find-unlink_ne a b (bucket w l i) (λ e. n (sym e)));
  }

  module _ (t : Instant) (gen info nodes : ℕ) where
    abbrev pub level_of : ℕ
    level_of = (bucket_indices w t).0

    abbrev pub index_of : ℕ
    index_of = (bucket_indices w t).1

    abbrev pub pushed : Queue TimerNode
    pushed =
        push_back a (entry (some (level_of, index_of)) gen info nodes) (bucket w level_of index_of)

    abbrev pub placed_at : TimerWheel
    placed_at = set_bucket w level_of index_of pushed

    pub WheelStep-placed_at : WheelStep a w placed_at
    WheelStep-placed_at = record {
      still_sound = record {
        shaped = IsShaped-set_bucket w level_of index_of pushed h.shaped;
        at_zero = AllWheels-set_bucket w level_of index_of pushed h.at_zero (
            SentinelsAtZero-push_back a (some (level_of, index_of)) gen info nodes
              (bucket w level_of index_of) (AllWheels-bucket w level_of index_of h.at_zero));
      };
      others = λ b n.
          node_at-set_bucket w b level_of index_of pushed
            (find-push_back_ne a b _ (bucket w level_of index_of) (λ e. n (sym e)));
    }

    found : (q : Queue TimerNode) (n : TimerNode) → find a (push_back a n q) ≢ none
    unfolding find
    found [] n e = ground arith
    found ((b, m) ∷ q) n e = ground (arith, found q n)

    pub node_at-placed_at : node_at a placed_at.wheels ≢ none
    node_at-placed_at =
        let b = bucket_indices_bounds w t in
        node_at_bucket w a level_of index_of pushed (omega (arith, h.shaped.0, b.0))
          (omega (arith, h.shaped.1 level_of b.0, b.1)) (found (bucket w level_of index_of) _)

-- The wheel and the node after `unlink_timer` on the node of an entry.
unlink_timer-WheelStep :
    (w : TimerWheel) (a : ℕ) (pos : Option (ℕ × ℕ)) (gen info nodes : ℕ)
    → IsSound w
    → (w' : TimerWheel) × (unlink_timer w a (entry pos gen info nodes)
        ≡ (w', entry none gen info nodes, true))
      × WheelStep a w w'
unfolding unlink_timer
unlink_timer-WheelStep w a none gen info nodes h = (w, refl, WheelStep-refl a w h)
unlink_timer-WheelStep w a (some (l, i)) gen info nodes h =
    (set_bucket w l i (unlink a (bucket w l i)), refl, WheelStep-unlink w h a l i)

-- A live pointer reaches the node of an entry.
reaches :
    (w : TimerWheel) (a : ℕ)
    → IsSound w
    → a ≢ 0
    → node_at a w.wheels ≢ none
    → (pos : Option (ℕ × ℕ)) × (gen : ℕ) × (info : ℕ) × (nodes : ℕ) × (node_at a w.wheels
        ≡ some (entry pos gen info nodes))
reaches w a h z n = elim (Option-cases (node_at a w.wheels)) [
  | inl e ↦ absurd (n e)
  | inr (sentinel, e) ↦ absurd (z (node_at_sentinel a w.wheels h.at_zero e))
  | inr (entry pos gen info nodes, e) ↦ (pos, gen, info, nodes, e)
]

module _ (w : TimerWheel) (a expected : ℕ) (h : IsSound w) (z : a ≢ 0)
    (n : node_at a w.wheels ≢ none) where
  -- `deschedule` by a live pointer succeeds and concerns it only.
  pub deschedule-WheelStep :
      (w' : TimerWheel) × (valid : Bool) × (deschedule w a expected ≡ some (w', valid))
      × WheelStep a w w'
  unfolding deschedule
  deschedule-WheelStep =
      let (pos, gen, info, nodes, e) = reaches w a h z n in
      let (w', u, step) = unlink_timer-WheelStep w a pos gen info nodes h in
      elim (Bool-cases (gen == expected)) [
        | inl g ↦ (w', true, rw (e, deschedule) (rw (u, g) refl), step)
        | inr g ↦ (w, false, rw (e, deschedule) (rw (u, g) refl), WheelStep-refl a w h)
      ]

  module _ {ℓ} {K : Type ℓ} (sh : Shared K) where
    -- How `reschedule` by a live pointer ends: the pointer is stale, its node has a new place, or it
    -- is out of the wheel and out of the queue nodes of its entry.
    pub data Ends : Type ℓ where
      stale : reschedule sh w a expected ≡ some (w, sh, none) → Ends
      moved :
          (w' : TimerWheel)
          → reschedule sh w a expected ≡ some (w', sh, some rescheduled)
          → WheelStep a w w'
          → node_at a w'.wheels ≢ none
          → Ends
      gone :
          (w' : TimerWheel) (nodes : ℕ) (node : TimerNode)
          → reschedule sh w a expected
            ≡ some (w', set_timer_node sh nodes none 0, some (removed node))
          → WheelStep a w w'
          → Ends

    module _ (pos : Option (ℕ × ℕ)) (gen info nodes : ℕ)
        (e : node_at a w.wheels ≡ some (entry pos gen info nodes)) (w' : TimerWheel)
        (u : unlink_timer w a (entry pos gen info nodes) ≡ (w', entry none gen info nodes, true))
        (step : WheelStep a w w') (g : (gen == expected) ≡ true) where
      relink_ends : Ends
      unfolding reschedule relink schedule_existing_node
      relink_ends = elim (Option-cases (expiration_state (sh.infos info)).0) [
        | inl x ↦
            gone w' nodes (entry none gen info nodes)
              (rw (e, reschedule) (rw (u, g) (rw (x, relink) refl))) step
        | inr (t, x) ↦
            moved (placed_at w' step.still_sound a t gen info nodes)
              (rw (e, reschedule) (rw (u, g) (rw (x, relink) refl)))
              (WheelStep-trans a w w' (placed_at w' step.still_sound a t gen info nodes) step
                (WheelStep-placed_at w' step.still_sound a t gen info nodes))
              (node_at-placed_at w' step.still_sound a t gen info nodes)
      ]

    pub reschedule_ends : Ends
    unfolding reschedule
    reschedule_ends =
        let (pos, gen, info, nodes, e) = reaches w a h z n in
        let (w', u, step) = unlink_timer-WheelStep w a pos gen info nodes h in
        elim (Bool-cases (gen == expected)) [
          | inl g ↦ relink_ends pos gen info nodes e w' u step g
          | inr g ↦ stale (rw (e, reschedule) (rw (u, g) refl))
        ]

-- `schedule` places the new node or leaves the wheel as it is.
pub schedule-WheelStep {ℓ} :
    {K : Type ℓ} (sh : Shared K) (w : TimerWheel) (a info nodes gen : ℕ)
    → IsSound w
    → (schedule sh w a info nodes gen ≡ (w, none))
      ⊎ ((w' : TimerWheel) × (schedule sh w a info nodes gen ≡ (w', some a))
          × WheelStep a w w'
          × (node_at a w'.wheels ≢ none))
unfolding schedule
schedule-WheelStep sh w a info nodes gen h =
    elim (Bool-cases ((expiration_state (sh.infos info)).1 == gen)) [
      | inr g ↦ inl (rw (g, schedule) refl)
      | inl g ↦ elim (Option-cases (expiration_state (sh.infos info)).0) [
        | inl x ↦ inl (rw (g, schedule) (rw x refl))
        | inr (t, x) ↦ inr (
          placed_at w h a t gen info nodes,
          rw (g, schedule) (rw x refl),
          WheelStep-placed_at w h a t gen info nodes,
          node_at-placed_at w h a t gen info nodes,
        )
      ]
    ]
