-- ===== src/Tests/Initializer.antt =====
-- Tests of src/sync/value_initializer.rs: two calls for one key, the second of which finds the waiter
-- of the first.
use moka.Base.{ℕ, ◌≡◌, refl, List, [], ◌∷◌, Option, none, some, ◌>>=◌, ℕ_discrete}
use moka.Concurrent.{update}
use moka.Initializer.{
  ok, returned, unexpected_state, unwound, unwinds, initialized, read_existing, Phase, waiting,
  evaluating, ended, Event, proceed, got, evaluated, Call, ValueInitializer, step_call,
  try_init_or_read, with_hasher, computing, ready, inserting, enter, publish, try_insert_waiter,
  remove_waiter,
}
use moka.Initializer.Reachable.{
  Reachable, created, called, stepped, unexpected_state-Poisoned, one_evaluation,
}
use moka.Initializer.Safety.{Poisoned}
use moka.Initializer.Progress.{no_deadlock}

abbrev Table : Type 0
Table = ValueInitializer ℕ ℕ ℕ

-- Both calls start, the first one comes to evaluate its closure, and the second one waits.
abbrev events : List (ℕ × Event ℕ ℕ)
events = (1, proceed) ∷ (2, proceed) ∷ (1, got none) ∷ []

abbrev later_events : List (ℕ × Event ℕ ℕ)
later_events = (1, evaluated (ok 70)) ∷ (1, proceed) ∷ (1, proceed) ∷ (2, proceed) ∷ []

abbrev run_events : List (ℕ × Event ℕ ℕ) → Table → Option Table
run_events [] p = some p
run_events ((n, event) ∷ events) p = do p1 ← step_call ℕ_discrete p n event; run_events events p1

abbrev opened : Option Table
opened = do
  p1 ← try_init_or_read (with_hasher ℕ ℕ ℕ) 1 5
  p2 ← try_init_or_read p1 2 5
  run_events events p2

abbrev phase_of : ℕ → Option Table → Option (Phase ℕ ℕ)
phase_of n r = do p ← r; c ← p.calls n; some c.phase

opened_phases : (phase_of 1 opened ≡ some evaluating) × (phase_of 2 opened ≡ some (waiting 1 0))
unfolding step_call try_init_or_read with_hasher ℕ_discrete
opened_phases = (refl, refl)

-- The second call reads what the first one has initialized.
closed_phases :
    let closed = (do p ← opened; run_events later_events p) in
    (phase_of 1 closed ≡ some (ended (returned (initialized 70))))
    × (phase_of 2 closed ≡ some (ended (returned (read_existing 70))))
unfolding step_call try_init_or_read with_hasher ℕ_discrete
closed_phases = (refl, refl)

-- The states of the run, one by one.
abbrev start_call : Table → ℕ → Table
start_call p n = enter (record p { values = update p.values n computing }) n 5 (inserting 0)

abbrev start : Table
start = with_hasher ℕ ℕ ℕ

abbrev t1 : Table
t1 = start_call start 1

abbrev t2 : Table
t2 = start_call t1 2

abbrev t3 : Table
t3 = try_insert_waiter ℕ_discrete t2 1 5 0 none

abbrev t4 : Table
t4 = enter t3 2 5 (waiting 1 0)

abbrev t5 : Table
t5 = enter t4 1 5 evaluating

abbrev t6 : Table
t6 = publish t5 1 5 (ready (ok 70)) (returned (initialized 70))

abbrev t7 : Table
t7 = remove_waiter ℕ_discrete t6 1 5 (returned (initialized 70))

abbrev t8 : Table
t8 = enter t7 1 5 (ended (returned (initialized 70)))

abbrev t9 : Table
t9 = enter t8 2 5 (ended (returned (read_existing 70)))

t5-Reachable : Reachable ℕ_discrete t5
unfolding step_call try_init_or_read with_hasher ℕ_discrete
t5-Reachable =
    stepped {p = t4} 1 (got none)
      (stepped {p = t3} 2 proceed
        (stepped {p = t2} 1 proceed (called {p = t1} 2 5 (called {p = start} 1 5 created refl) refl)
          refl)
        refl)
      refl

t9-Reachable : Reachable ℕ_discrete t9
unfolding step_call try_init_or_read with_hasher ℕ_discrete
t9-Reachable =
    stepped {p = t8} 2 proceed
      (stepped {p = t7} 1 proceed
        (stepped {p = t6} 1 proceed (stepped {p = t5} 1 (evaluated (ok 70)) t5-Reachable refl) refl)
        refl)
      refl

abbrev evaluating_call : Call ℕ ℕ ℕ
evaluating_call = record { key = 5; phase = evaluating }

-- `insert` of the first call panics instead, and the second one finds its waiter.
abbrev u6 : Table
u6 = enter t5 1 5 (ended unwound)

abbrev u7 : Table
u7 = enter u6 2 5 (ended unexpected_state)

u7-Reachable : Reachable ℕ_discrete u7
unfolding step_call try_init_or_read with_hasher ℕ_discrete
u7-Reachable = stepped {p = u6} 2 proceed (stepped {p = t5} 1 unwinds t5-Reachable refl) refl

unexpected_state-Poisoned_example : Poisoned u7 5
unexpected_state-Poisoned_example =
    unexpected_state-Poisoned ℕ_discrete u7 u7-Reachable 2
      (record { key = 5; phase = ended unexpected_state }) refl refl

one_evaluation_example : ◌≡◌ {A = ℕ} 1 1
one_evaluation_example =
    one_evaluation ℕ_discrete t5 t5-Reachable 1 1 evaluating_call evaluating_call refl refl refl
      refl refl

no_deadlock_example :
    (m : ℕ) × (event : Event ℕ ℕ) × (p' : Table) × (step_call ℕ_discrete t5 m event ≡ some p')
no_deadlock_example =
    no_deadlock ℕ_discrete t5 t5-Reachable 2 (record { key = 5; phase = waiting 1 0 }) refl tt
