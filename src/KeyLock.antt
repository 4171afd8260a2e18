-- ===== src/KeyLock.antt =====
-- src/sync/key_lock.rs: the locks that calls for one key share. A mutex is an address with a count of
-- its references, from the map and from the key locks that are alive. The drop of a key lock has
-- three steps, and any step of another one may come between them.
pub mod Shared
pub mod Drops
pub mod Reachable
use mathlib.Core.Logic.{ite}
use moka.Base.{ℕ, ◌+◌, ◌-◌, List, [], ◌∷◌, ◌++◌, Bool, Option, none, some, leb, if◌then◌else◌}
use moka.Concurrent.{update}

-- How far the drop of a key lock is: not begun, before its `remove_if`, and after it, when its own
-- reference is left to be dropped.
pub data DropPhase : Type 0 where
  in_use : DropPhase
  removing : DropPhase
  releasing : DropPhase

pub record KeyLock (K : Type 0) : Type 0 where
  pub key : K
  pub lock : ℕ
  pub phase : DropPhase

-- The map, the reference counts, and the key locks that hold a reference, the latest first.
pub record KeyLockMap (K : Type 0) : Type 0 where
  pub locks : K → Option ℕ
  pub counts : ℕ → ℕ
  pub alive : List (KeyLock K)

unfoldable pub empty_map : (K : Type 0) → KeyLockMap K
empty_map K = record { locks = λ k. none; counts = λ a. 0; alive = [] }

module _ {K : Type 0} (dec : Discrete K) where
  abbrev pub set_lock : (K → Option ℕ) → K → Option ℕ → K → Option ℕ
  set_lock f key a j = ite (dec key j) a (f j)

  abbrev pub add_lock : KeyLockMap K → K → ℕ → Option ℕ → KeyLockMap K
  add_lock p key addr none = record {
    locks = set_lock p.locks key (some addr);
    counts = update p.counts addr 2;
    alive = record { key = key; lock = addr; phase = in_use } ∷ p.alive;
  }
  add_lock p key addr (some existing) = record {
    locks = p.locks;
    counts = update p.counts existing (p.counts existing + 1);
    alive = record { key = key; lock = existing; phase = in_use } ∷ p.alive;
  }

  -- A new key lock, where `addr` is the address of the mutex that the call makes: it goes into the
  -- map, with a reference from there and one from the key lock, or is dropped.
  unfoldable pub key_lock : KeyLockMap K → K → ℕ → KeyLockMap K
  key_lock p key addr = add_lock p key addr (p.locks key)

  -- `remove_if` of the map, which reads the count again: the reference of the map goes with the
  -- mutex.
  abbrev pub remove_if_last : KeyLockMap K → K → Option ℕ → KeyLockMap K
  remove_if_last p key none = p
  remove_if_last p key (some a) =
      if leb (p.counts a) 2
      then record p {
        locks = set_lock p.locks key none;
        counts = update p.counts a (p.counts a - 1);
      }
      else p

  -- A step of the drop of a key lock, which stands between the others: the test of the count, the
  -- `remove_if`, or the drop of the field.
  unfoldable pub drop_lock :
      KeyLockMap K → K → ℕ → DropPhase → List (KeyLock K) → List (KeyLock K) → KeyLockMap K
  drop_lock p key a in_use before after =
      let next = if leb (p.counts a) 2 then removing else releasing in
      record p { alive = before ++ (record { key = key; lock = a; phase = next } ∷ after) }
  drop_lock p key a removing before after = record (remove_if_last p key (p.locks key)) {
    alive = before ++ (record { key = key; lock = a; phase = releasing } ∷ after);
  }
  drop_lock p key a releasing before after = record p {
    counts = update p.counts a (p.counts a - 1);
    alive = before ++ after;
  }
