-- ===== src/Tests/KeyLock.antt =====
-- Tests of src/sync/key_lock.rs: two key locks for one key.
use moka.Base.{ℕ, ◌≡◌, refl, List, [], ◌∷◌, Option, none, some, ℕ_discrete, arith}
use mathlib.Core.Logic.{ite}
use moka.KeyLock.{
  DropPhase, in_use, removing, releasing, KeyLock, KeyLockMap, empty_map, key_lock, drop_lock,
}
use moka.KeyLock.Shared.{IsNew}
use moka.KeyLock.Reachable.{Reachable, created, locked, dropped}

abbrev held_in : DropPhase → KeyLock ℕ
held_in x = record { key = 5; lock = 1; phase = x }

-- A step of the drop of the latest key lock.
abbrev drop_first : KeyLockMap ℕ → DropPhase → List (KeyLock ℕ) → KeyLockMap ℕ
drop_first p x after = drop_lock ℕ_discrete p 5 1 x [] after

-- Two calls for the key; then one of the key locks begins its drop.
abbrev p1 : KeyLockMap ℕ
p1 = key_lock ℕ_discrete (empty_map ℕ) 5 1

abbrev p2 : KeyLockMap ℕ
p2 = key_lock ℕ_discrete p1 5 2

abbrev p3 : KeyLockMap ℕ
p3 = drop_first p2 in_use (held_in in_use ∷ [])

abbrev p4 : KeyLockMap ℕ
p4 = drop_first p3 releasing (held_in in_use ∷ [])

still_there : (p4.locks 5 ≡ some 1) × (p4.counts 1 ≡ 2) × (p4.alive ≡ held_in in_use ∷ [])
unfolding drop_lock key_lock empty_map ℕ_discrete
still_there = (refl, refl, refl)

-- The last drop empties the map.
all_dropped :
    let p7 = drop_first (drop_first (drop_first p4 in_use []) removing []) releasing [] in
    (p7.locks 5 ≡ none) × (p7.counts 1 ≡ 0) × (p7.alive ≡ [])
unfolding drop_lock key_lock empty_map ℕ_discrete
all_dropped = (refl, refl, refl)

-- Two drops that both test the count before either of them gives up its reference leave the mutex in
-- the map.
left_behind :
    let p5 = drop_lock ℕ_discrete p3 5 1 in_use (held_in releasing ∷ []) [] in
    let p7 = drop_first (drop_first p5 releasing (held_in releasing ∷ [])) releasing [] in
    (p7.locks 5 ≡ some 1) × (p7.counts 1 ≡ 1) × (p7.alive ≡ [])
unfolding drop_lock key_lock empty_map ℕ_discrete
left_behind = (refl, refl, refl)

empty-IsNew : IsNew (empty_map ℕ) 1
unfolding empty_map
empty-IsNew = (λ i h. cc, refl)

p1-IsNew : IsNew p1 2
unfolding key_lock empty_map ℕ_discrete
p1-IsNew = (go, refl)
  where
    go : (i : ℕ) → p1.locks i ≡ some 2 → ⊥
    go i h =
        elim (ℕ_discrete 5 i) as (λ d. ◌≡◌ {A = Option ℕ} (ite d (some 1) none) (some 2) → ⊥) [
          | yes q ↦ λ g. ground (arith, g)
          | no d ↦ λ g. cc
        ]
          h

p2-Reachable : Reachable ℕ_discrete p2
unfolding key_lock empty_map ℕ_discrete
p2-Reachable = locked {p = p1} 5 2 (locked {p = empty_map ℕ} 5 1 created empty-IsNew) p1-IsNew

p3-Reachable : Reachable ℕ_discrete p3
unfolding key_lock empty_map ℕ_discrete drop_lock
p3-Reachable = dropped {p = p2} 5 1 in_use [] (held_in in_use ∷ []) p2-Reachable refl
