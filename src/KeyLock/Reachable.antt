-- ===== src/KeyLock/Reachable.antt =====
-- src/sync/key_lock.rs: the key locks that calls and drops reach together.
use moka.Base.{ℕ, ◌≡◌, List, ◌∷◌, ◌++◌}
use moka.KeyLock.{DropPhase, KeyLock, KeyLockMap, empty_map, key_lock, drop_lock}
use moka.KeyLock.Shared.{IsNew}

-- The allocator gives the address of no mutex that is there; any key lock may go on with its drop.
pub data Reachable {K : Type 0} (dec : Discrete K) : KeyLockMap K → Type 0 where
  created : Reachable dec (empty_map K)
  locked :
      {p : KeyLockMap K} (key : K) (addr : ℕ)
      → Reachable dec p
      → IsNew p addr
      → Reachable dec (key_lock dec p key addr)
  dropped :
      {p : KeyLockMap K} (key : K) (lock : ℕ) (x : DropPhase) (before after : List (KeyLock K))
      → Reachable dec p
      → p.alive ≡ before ++ (record { key = key; lock = lock; phase = x } ∷ after)
      → Reachable dec (drop_lock dec p key lock x before after)
