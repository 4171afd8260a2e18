-- ===== src/Cache/Linked.antt =====
-- src/sync/base_cache.rs: what ties the infos, their queue nodes and the deques together. The
-- arena of queue nodes numbers those of an entry like its info (`IsPaired`).
pub mod Unlink
pub mod Timed
pub mod Retime
pub mod Move
pub mod Frame
pub mod Link
use moka.Base.{ℕ, suc, ◌+◌, ◌≤◌, ◌≡◌, ◌≢◌, [], Bool, true, false, Option, none, some, arith, length}
use moka.Concurrent.{ValueEntry, CacheRegion, main_probation}
use moka.Queue.{find}
use moka.Queue.Laws.{Distinct}
use moka.Cache.{State}

abbrev pub IsPaired {ℓ} : {V : Type ℓ} → ValueEntry V → Type 0
IsPaired e = e.nodes ≡ e.info

module _ {K V : Type 0} where
  abbrev pub ao_node : State K V → ℕ → Option (ℕ × CacheRegion)
  ao_node s i = (s.shared.deq_nodes i).access_order_q_node

  abbrev pub wo_node : State K V → ℕ → Option ℕ
  wo_node s i = (s.shared.deq_nodes i).write_order_q_node

  abbrev pub is_admitted_at : State K V → ℕ → Bool
  is_admitted_at s i = (s.shared.infos i).is_admitted

  -- The nodes of the probation deque and of the write-order deque are those of the admitted
  -- entries, each pointed to by its own entry and by no other.
  pub record IsLinked (s : State K V) : Type 0 where
    pub ao_distinct : Distinct s.deques.probation
    pub wo_distinct : Distinct s.deques.write_order
    pub ao_owner :
        (a i : ℕ) → find a s.deques.probation ≡ some i → ao_node s i ≡ some (a, main_probation)
    pub ao_valid :
        (i a : ℕ) (r : CacheRegion)
        → ao_node s i ≡ some (a, r)
        → (r ≡ main_probation) × (find a s.deques.probation ≡ some i)
    pub wo_owner : (b i : ℕ) → find b s.deques.write_order ≡ some i → wo_node s i ≡ some b
    pub wo_valid : (i b : ℕ) → wo_node s i ≡ some b → find b s.deques.write_order ≡ some i
    pub admitted_linked : (i : ℕ) → is_admitted_at s i ≡ true → ao_node s i ≢ none
    pub unadmitted_free :
        (i : ℕ) → is_admitted_at s i ≡ false → (ao_node s i ≡ none) × (wo_node s i ≡ none)
    pub ao_fresh : (a : ℕ) → s.next_addr ≤ a → find a s.deques.probation ≡ none
    pub wo_fresh : (a : ℕ) → s.next_addr ≤ a → find a s.deques.write_order ≡ none
    pub window_empty : s.deques.window ≡ []
    pub protected_empty : s.deques.protected ≡ []

  -- The entry count is the number of the nodes.
  abbrev pub IsCounted : State K V → Type 0
  IsCounted s = s.counters.entry_count ≡ length s.deques.probation

  -- What the deques have no part in is as it was.
  pub record SameRest (s s' : State K V) : Type 0 where
    pub rest_wheel : s'.timer_wheel ≡ s.timer_wheel
    pub rest_timers :
        (i : ℕ) → (s'.shared.deq_nodes i).timer_node ≡ (s.shared.deq_nodes i).timer_node
    pub rest_cache : s'.cache ≡ s.cache
    pub rest_later : s.next_addr ≤ s'.next_addr
