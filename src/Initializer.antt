-- ===== src/Initializer.antt =====
-- src/sync/value_initializer.rs: the calls of `try_init_or_read` that share one table of waiters. A
-- call goes from phase to phase, and any call may take the next step. The closures are outside: a
-- step that runs one has its result. `none` is a step that is not possible, as for a read lock
-- while another call has the write lock. The key of a waiter is that of the cache with the type id,
-- and the number of a call is also the address of its waiter.
pub mod Safety
pub mod Steps
pub mod Runs
pub mod Reachable
pub mod Progress
use mathlib.Core.Logic.{ite}
use moka.Base.{ℕ, suc, Bool, true, false, Option, none, some, ltb, if◌then◌else◌}
use moka.Concurrent.{update}

pub data Result (V E : Type 0) : Type 0 where
  ok : V → Result V E
  err : E → Result V E

pub data WaiterValue (V E : Type 0) : Type 0 where
  computing : WaiterValue V E
  ready : Result V E → WaiterValue V E
  ready_none : WaiterValue V E
  init_closure_panicked : WaiterValue V E

pub data InitResult (V E : Type 0) : Type 0 where
  initialized : V → InitResult V E
  read_existing : V → InitResult V E
  init_err : E → InitResult V E

-- How a call ends: it returns, or panics: with the payload of its own closure, as it has retried
-- too often, for the unexpected state of a waiter, or as user code panics that runs outside
-- `catch_unwind`.
pub data End (V E : Type 0) : Type 0 where
  returned : InitResult V E → End V E
  resumed : End V E
  too_many_retries : End V E
  unexpected_state : End V E
  unwound : End V E

-- `inserting` and `waiting` have the number of retries, `waiting` the other call's waiter first.
-- While `removing` the result is in the waiter; while `returning` the waiter is out of the table.
pub data Phase (V E : Type 0) : Type 0 where
  inserting : ℕ → Phase V E
  waiting : ℕ → ℕ → Phase V E
  checking : Phase V E
  evaluating : Phase V E
  removing : End V E → Phase V E
  returning : End V E → Phase V E
  ended : End V E → Phase V E

-- What a step brings: nothing from outside, what `get` or the `init` closure gave, that `init`
-- panicked, or that other user code did: in `get`, `post_init` or `insert`, or in a `clone`.
pub data Event (V E : Type 0) : Type 0 where
  proceed : Event V E
  got : Option V → Event V E
  evaluated : Result V E → Event V E
  panicked : Event V E
  unwinds : Event V E

pub record Call (W V E : Type 0) : Type 0 where
  pub key : W
  pub phase : Phase V E

pub record ValueInitializer (W V E : Type 0) : Type 0 where
  pub waiters : W → Option ℕ
  pub values : ℕ → WaiterValue V E
  pub is_locked : ℕ → Bool
  pub calls : ℕ → Option (Call W V E)

abbrev pub max_retries : ℕ
max_retries = 200

-- What a call does with the value of somebody else's waiter.
unfoldable pub read_waiter : {V E : Type 0} → WaiterValue V E → ℕ → Phase V E
read_waiter (ready (ok v)) retries = ended (returned (read_existing v))
read_waiter (ready (err e)) retries = ended (returned (init_err e))
read_waiter init_closure_panicked retries =
    if ltb (suc retries) max_retries then inserting (suc retries) else ended too_many_retries
read_waiter computing retries = ended unexpected_state
read_waiter ready_none retries = ended unexpected_state

-- Whether a reader of the waiter clones a value.
abbrev pub is_ready : {V E : Type 0} → WaiterValue V E → Bool
is_ready (ready (ok v)) = true
is_ready (ready (err e)) = false
is_ready computing = false
is_ready ready_none = false
is_ready init_closure_panicked = false

-- A call that has ended has let go of the lock of its waiter.
abbrev pub has_lock : {V E : Type 0} → Phase V E → Bool
has_lock (ended r) = false
has_lock (inserting retries) = true
has_lock (waiting o retries) = true
has_lock checking = true
has_lock evaluating = true
has_lock (removing r) = true
has_lock (returning r) = true

-- How the evaluation of `init` ends.
abbrev pub init_end : {V E : Type 0} → Result V E → End V E
init_end (ok v) = returned (initialized v)
init_end (err e) = returned (init_err e)

module _ {W : Type 0} (dec : Discrete W) where
  abbrev pub set_waiter : (W → Option ℕ) → W → Option ℕ → W → Option ℕ
  set_waiter f w o j = ite (dec w j) o (f j)

module _ {W V E : Type 0} where
  -- The call in another phase.
  abbrev pub enter : ValueInitializer W V E → ℕ → W → Phase V E → ValueInitializer W V E
  enter p n w phase = record p {
    calls = update p.calls n (some (record { key = w; phase = phase }));
    is_locked = update p.is_locked n (has_lock phase);
  }

  -- The result stored in the waiter of the call.
  abbrev pub publish :
      ValueInitializer W V E → ℕ → W → WaiterValue V E → End V E → ValueInitializer W V E
  publish p n w value r = enter (record p { values = update p.values n value }) n w (removing r)

  -- A new call makes its waiter and locks it.
  unfoldable pub try_init_or_read : ValueInitializer W V E → ℕ → W → Option (ValueInitializer W V E)
  try_init_or_read p n w = elim (p.calls n) [
    | some c ↦ none
    | none ↦ some (enter (record p { values = update p.values n computing }) n w (inserting 0))
  ]

module _ {W V E : Type 0} (dec : Discrete W) where
  abbrev pub try_insert_waiter :
      ValueInitializer W V E → ℕ → W → ℕ → Option ℕ → ValueInitializer W V E
  try_insert_waiter p n w retries none =
      enter (record p { waiters = set_waiter dec p.waiters w (some n) }) n w checking
  try_insert_waiter p n w retries (some o) = enter p n w (waiting o retries)

  abbrev pub remove_waiter : ValueInitializer W V E → ℕ → W → End V E → ValueInitializer W V E
  remove_waiter p n w r =
      enter (record p { waiters = set_waiter dec p.waiters w none }) n w (returning r)

  -- A step of the body of `try_init_or_read`. A call that unwinds lets go of the lock, and its waiter
  -- stays as it is.
  unfoldable pub advance :
      ValueInitializer W V E → ℕ → W → Phase V E → Event V E → Option (ValueInitializer W V E)
  unfolding read_waiter
  advance p n w (inserting retries) proceed = some (try_insert_waiter p n w retries (p.waiters w))
  advance p n w (waiting o retries) proceed =
      if p.is_locked o then none else some (enter p n w (read_waiter (p.values o) retries))
  advance p n w (waiting o retries) unwinds =
      if p.is_locked o
      then none
      else if is_ready (p.values o)
      then some (enter p n w (ended unwound))
      else none
  advance p n w checking (got none) = some (enter p n w evaluating)
  advance p n w checking (got (some v)) =
      some (publish p n w (ready (ok v)) (returned (read_existing v)))
  advance p n w checking unwinds = some (enter p n w (ended unwound))
  advance p n w evaluating (evaluated result) =
      some (publish p n w (ready result) (init_end result))
  advance p n w evaluating panicked = some (publish p n w init_closure_panicked resumed)
  advance p n w evaluating unwinds = some (enter p n w (ended unwound))
  advance p n w (removing r) proceed = some (remove_waiter p n w r)
  advance p n w (returning r) proceed = some (enter p n w (ended r))
  advance p n w phase event = none

  unfoldable pub step_call :
      ValueInitializer W V E → ℕ → Event V E → Option (ValueInitializer W V E)
  unfolding advance
  step_call p n event = elim (p.calls n) [ none ↦ none | some c ↦ advance p n c.key c.phase event ]

-- `with_hasher`.
unfoldable pub with_hasher : (W V E : Type 0) → ValueInitializer W V E
with_hasher W V E = record {
  waiters = λ w. none;
  values = λ n. computing;
  is_locked = λ n. false;
  calls = λ n. none;
}
