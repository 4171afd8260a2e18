-- ===== src/Cache/Handle.antt =====
-- src/sync/base_cache.rs: `handle_upsert` and the write operations of `apply_writes`.
use moka.Base.{
  ℕ, List, [], ◌∷◌, Bool, true, false, not, ◌&&◌, Option, none, some, ◌>>=◌, ltb, ◌==◌,
  if◌then◌else◌,
}
use mathlib.Core.Logic.{ite}
use moka.Time.{Instant}
use moka.EntryInfo.{KeyHash, is_alive, last_accessed}
use moka.Concurrent.{ValueEntry, WriteOp, upsert, remove}
use moka.Deques.{move_to_back_ao, move_to_back_wo}
use moka.Queue.{Queue, move_front_to_back}
use moka.Sketch.{frequency}
use moka.Cache.{
  State, Config, tiny_lfu, lru, info_of, counters_sub, saturating_add, has_enough_capacity,
  cht_remove_if_and_retire, record_eviction, size,
}
use moka.Cache.Timer.{update_timer_wheel}
use moka.Cache.Policy.{handle_admit, handle_remove, store_policy_gen}
use moka.Cache.Admission.{admit, AdmissionResult, admitted, rejected, new_candidate, Victims}

abbrev pub same_instant : Option Instant → Option Instant → Bool
same_instant none none = true
same_instant none (some t) = false
same_instant (some t) none = false
same_instant (some t) (some u) = t == u

module _ {K V : Type 0} (dec : Discrete K) (c : Config) where
  -- The update of an entry that is admitted already.
  unfoldable pub update_admitted : State K V → ValueEntry V → ℕ → ℕ → ℕ → Option (State K V)
  update_admitted s e gen old_weight new_weight = do
    s1 ←
        update_timer_wheel
          (record s {
            counters = saturating_add (counters_sub s.counters 0 old_weight) 0 new_weight;
          })
          e
    d ← move_to_back_ao s1.deques s1.shared e.nodes
    some
        (store_policy_gen (record s1 { deques = move_to_back_wo d s1.shared e.nodes }) e (some gen))

  -- The condition under which the candidate itself is taken out of the map.
  abbrev pub is_candidate : State K V → ValueEntry V → ℕ → ValueEntry V → Bool
  is_candidate s e gen current =
      e.info == current.info && (s.shared.infos current.info).entry_gen == gen

  -- The removal of a candidate that is too big for the cache.
  unfoldable pub reject_oversized : State K V → KeyHash K → ValueEntry V → ℕ → State K V
  reject_oversized s kh e gen =
      let (s1, removed) = cht_remove_if_and_retire dec s kh.key (is_candidate s e gen) in
      elim removed [
        | none ↦ store_policy_gen s1 e (some gen)
        | some v ↦ store_policy_gen (record_eviction c s1 kh.key v size) e (some gen)
      ]

  -- The removal of a candidate that was not admitted.
  unfoldable pub reject : State K V → KeyHash K → ValueEntry V → ℕ → State K V
  reject s kh e gen =
      let (s1, removed) = cht_remove_if_and_retire dec s kh.key (is_candidate s e gen) in
      elim removed [
        | none ↦ s1
        | some v ↦ record_eviction c (store_policy_gen s1 v (some gen)) kh.key v size
      ]

  -- Moves the front of the probation deque to the back if it is of the key and hash.
  unfoldable pub skip_victim : State K V → KeyHash K → State K V
  skip_victim s kh = elim s.deques.probation [
    | [] ↦ s
    | (a, i) ∷ q ↦
        if ite (dec (s.shared.infos i).key_hash.key kh.key)
          ((s.shared.infos i).key_hash.hash == kh.hash) false
        then record s { deques = record s.deques { probation = move_front_to_back ((a, i) ∷ q) } }
        else s
  ]

  unfoldable pub remove_victim : State K V → KeyHash K × Option Instant → Option (State K V)
  unfolding skip_victim
  remove_victim s (kh, la) =
      let (s1, removed) =
        cht_remove_if_and_retire dec s kh.key
          (λ v. same_instant (last_accessed (s.shared.infos v.info)) la) in
      elim removed [
        | none ↦ some (skip_victim s1 kh)
        | some v ↦ handle_remove (record_eviction c s1 kh.key v size) v none
      ]

  unfoldable pub remove_victims : State K V → Victims K → Option (State K V)
  remove_victims s [] = some s
  remove_victims s (victim ∷ victims) = do s1 ← remove_victim s victim; remove_victims s1 victims

  unfoldable pub admit_candidate : State K V → ValueEntry V → ℕ → ℕ → Option (State K V)
  admit_candidate s e gen new_weight = do
    s1 ← handle_admit c s e new_weight
    some (store_policy_gen s1 e (some gen))

  -- Admission with the deques as the policy leaves them.
  unfoldable pub admission : State K V → KeyHash K → ℕ → Option (Queue ℕ × AdmissionResult K)
  admission s kh new_weight = elim c.eviction_policy [
    | tiny_lfu ↦
        admit dec s.cache s.shared s.sketch (new_candidate new_weight (frequency s.sketch kh.hash))
          s.deques.probation
    | lru ↦ some (s.deques.probation, admitted [])
  ]

  unfoldable pub admit_or_reject :
      State K V → KeyHash K → ValueEntry V → ℕ → ℕ → AdmissionResult K → Option (State K V)
  unfolding remove_victims reject
  admit_or_reject s kh e gen new_weight (admitted victims) = do
    s1 ← remove_victims s victims
    admit_candidate s1 e gen new_weight
  admit_or_reject s kh e gen new_weight rejected = some (reject s kh e gen)

  -- The candidate is weighed against the room that is left.
  unfoldable pub handle_new : State K V → KeyHash K → ValueEntry V → ℕ → ℕ → Option (State K V)
  unfolding reject_oversized admission admit_or_reject
  handle_new s kh e gen new_weight =
      if has_enough_capacity c new_weight s.counters
      then admit_candidate s e gen new_weight
      else if elim c.max_capacity [ none ↦ false | some limit ↦ ltb limit new_weight ]
      then some (reject_oversized s kh e gen)
      else do
        (q, result) ← admission s kh new_weight
        admit_or_reject (record s { deques = record s.deques { probation = q } }) kh e gen
            new_weight result

  unfoldable pub handle_upsert :
      State K V → KeyHash K → ValueEntry V → ℕ → ℕ → ℕ → Option (State K V)
  unfolding update_admitted handle_new
  handle_upsert s kh e gen old_weight new_weight =
      if not (is_alive (info_of s e))
      then some (store_policy_gen s e (some gen))
      else if (info_of s e).is_admitted
      then update_admitted s e gen old_weight new_weight
      else handle_new s kh e gen new_weight

  -- One message of the write channel.
  unfoldable pub apply_write : State K V → WriteOp K V → Option (State K V)
  unfolding handle_upsert
  apply_write s (upsert kh e gen old_weight new_weight) =
      handle_upsert s kh e gen old_weight new_weight
  apply_write s (remove k e gen) = handle_remove s e (some gen)

  -- The messages that the channel yields, at most `count`.
  unfoldable pub apply_writes : State K V → List (WriteOp K V) → Option (State K V)
  apply_writes s [] = some s
  apply_writes s (op ∷ ops) = do s1 ← apply_write s op; apply_writes s1 ops
