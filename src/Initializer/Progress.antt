-- ===== src/Initializer/Progress.antt =====
-- src/sync/value_initializer.rs: which call can take the next step.
use moka.Base.{ℕ, ◌≡◌, refl, ap, ◌∙◌, Option, none, some, arith, inl, inr, true, Bool-cases}
use moka.Initializer.{
  Phase, inserting, waiting, checking, evaluating, removing, returning, ended, Event, proceed, got,
  panicked, enter, read_waiter, advance, Call, ValueInitializer, step_call,
}
use moka.Initializer.Safety.{HasBegun, IsGood, IsUnfinished}
use moka.Initializer.Reachable.{Reachable, reachable-IsOrdered}

module _ {V E : Type 0} where
  abbrev IsWorking : Phase V E → Type 0
  IsWorking (inserting retries) = ⊥
  IsWorking (waiting o retries) = ⊥
  IsWorking checking = Unit {0}
  IsWorking evaluating = Unit {0}
  IsWorking (removing x) = Unit {0}
  IsWorking (returning x) = Unit {0}
  IsWorking (ended x) = ⊥

module _ {W V E : Type 0} (dec : Discrete W) (p : ValueInitializer W V E)
    (r : Reachable dec p) where
  -- Some step of the call is possible.
  abbrev CanStep : ℕ → Type 0
  CanStep n =
      (event : Event V E) × (p' : ValueInitializer W V E) × (step_call dec p n event ≡ some p')

  abbrev step_after : ℕ → Event V E → Option (Call W V E) → Option (ValueInitializer W V E)
  step_after n event none = none
  step_after n event (some c) = advance dec p n c.key c.phase event

  call_steps :
      (n : ℕ) (c : Call W V E) (event : Event V E) (p' : ValueInitializer W V E)
      → p.calls n ≡ some c
      → advance dec p n c.key c.phase event ≡ some p'
      → CanStep n
  unfolding step_call
  call_steps n c event p' k e = (event, p', ap (step_after n event) k ∙ e)

  worker_steps :
      (n : ℕ) (w : W) (x : Phase V E)
      → p.calls n ≡ some (record { key = w; phase = x })
      → IsWorking x
      → CanStep n
  unfolding advance
  worker_steps n w (inserting retries) k a = absurd a
  worker_steps n w (waiting o retries) k a = absurd a
  worker_steps n w checking k a = call_steps n _ (got none) _ k refl
  worker_steps n w evaluating k a = call_steps n _ panicked _ k refl
  worker_steps n w (removing x) k a = call_steps n _ proceed _ k refl
  worker_steps n w (returning x) k a = call_steps n _ proceed _ k refl
  worker_steps n w (ended x) k a = absurd a

  -- A call that has begun and has the lock of its waiter is at work.
  begun-IsWorking :
      (o : ℕ) (w : W) (x : Phase V E)
      → IsGood p o w x
      → HasBegun x (p.values o)
      → p.is_locked o ≡ true
      → IsWorking x
  begun-IsWorking o w (inserting retries) g b l = absurd b
  begun-IsWorking o w (waiting i retries) g b l = absurd b
  begun-IsWorking o w checking g b l = tt
  begun-IsWorking o w evaluating g b l = tt
  begun-IsWorking o w (removing x) g b l = tt
  begun-IsWorking o w (returning x) g b l = tt
  begun-IsWorking o w (ended x) (f, e) b l = absurd (ground (arith, f, l))

  progress :
      (n : ℕ) (w : W) (x : Phase V E)
      → p.calls n ≡ some (record { key = w; phase = x })
      → IsGood p n w x
      → IsUnfinished x
      → (m : ℕ) × CanStep m
  unfolding advance
  progress n w (inserting retries) k g u = (n, call_steps n _ proceed _ k refl)
  progress n w (waiting o retries) k (l, b, (c, e, q, a)) u = elim (Bool-cases (p.is_locked o)) [
    | inl f ↦ (
      o,
      worker_steps o c.key c.phase e
          (begun-IsWorking o c.key c.phase ((reachable-IsOrdered dec p r).good o c e) a f),
    )
    | inr f ↦ (
      n,
      call_steps n (record { key = w; phase = waiting o retries }) proceed
          (enter p n w (read_waiter (p.values o) retries)) k (rw f refl),
    )
  ]
  progress n w checking k g u = (n, worker_steps n w checking k tt)
  progress n w evaluating k g u = (n, worker_steps n w evaluating k tt)
  progress n w (removing x) k g u = (n, worker_steps n w (removing x) k tt)
  progress n w (returning x) k g u = (n, worker_steps n w (returning x) k tt)
  progress n w (ended x) k g u = absurd u

  -- In every state that calls of `try_init_or_read` reach from an empty table, if a call has
  -- not ended, some call can take a step, where a closure that is running may return or panic:
  -- the calls never all wait for each other.
  pub no_deadlock :
      (n : ℕ) (c : Call W V E)
      → p.calls n ≡ some c
      → IsUnfinished c.phase
      → (m : ℕ) × (event : Event V E) × (p' : ValueInitializer W V E) × (step_call dec p m event
          ≡ some p')
  no_deadlock n c k u =
      let (m, (event, p', e)) =
        progress n c.key c.phase k ((reachable-IsOrdered dec p r).good n c k) u in
      (m, event, p', e)
