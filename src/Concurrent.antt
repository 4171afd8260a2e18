-- ===== src/Concurrent.antt =====
-- src/common/concurrent.rs and the enum of src/common.rs: the records that the hash table, the
-- policies and the channels share. A `MiniArc` is a number, the address of the shared object in
-- `Shared`, so that two holders of an entry's info see each other's writes.
use moka.Base.{ℕ, Bool, Option, none, ◌==◌, if◌then◌else◌}
use moka.EntryInfo.{EntryInfo, KeyHash}

pub data CacheRegion : Type 0 where
  window main_probation main_protected other : CacheRegion

-- The queue nodes of an entry; an access-order pointer carries its region as a tag.
pub record DeqNodes : Type 0 where
  pub access_order_q_node : Option (ℕ × CacheRegion)
  pub write_order_q_node : Option ℕ
  pub timer_node : Option ℕ
  pub timer_node_expiry_gen : ℕ

abbrev pub default_deq_nodes : DeqNodes
default_deq_nodes = record {
  access_order_q_node = none;
  write_order_q_node = none;
  timer_node = none;
  timer_node_expiry_gen = 0;
}

pub record ValueEntry {ℓ} (V : Type ℓ) : Type ℓ where
  pub value : V
  pub info : ℕ
  pub nodes : ℕ

pub record Shared {ℓ} (K : Type ℓ) : Type ℓ where
  pub infos : ℕ → EntryInfo K
  pub deq_nodes : ℕ → DeqNodes

abbrev pub update {ℓ} : {A : Type ℓ} → (ℕ → A) → ℕ → A → ℕ → A
update f a v b = if b == a then v else f b

module _ {ℓ} {K : Type ℓ} where
  abbrev pub set_info : Shared K → ℕ → EntryInfo K → Shared K
  set_info sh i e = record sh { infos = update sh.infos i e }

  abbrev pub set_nodes : Shared K → ℕ → DeqNodes → Shared K
  set_nodes sh n d = record sh { deq_nodes = update sh.deq_nodes n d }

  abbrev pub set_timer_node : Shared K → ℕ → Option ℕ → ℕ → Shared K
  set_timer_node sh n node expiry_gen =
      set_nodes sh n
        (record (sh.deq_nodes n) { timer_node = node; timer_node_expiry_gen = expiry_gen })

  abbrev pub timer_node_with_expiry_gen : Shared K → ℕ → Option ℕ × ℕ
  timer_node_with_expiry_gen sh n =
      ((sh.deq_nodes n).timer_node, (sh.deq_nodes n).timer_node_expiry_gen)

  -- The timer node with its generation, and the objects after it was taken.
  abbrev pub take_timer_node : Shared K → ℕ → Option ℕ × ℕ × Shared K
  take_timer_node sh n = (
    (sh.deq_nodes n).timer_node,
    (sh.deq_nodes n).timer_node_expiry_gen,
    set_timer_node sh n none 0,
  )

  abbrev pub set_access_order_q_node : Shared K → ℕ → Option (ℕ × CacheRegion) → Shared K
  set_access_order_q_node sh n node =
      set_nodes sh n (record (sh.deq_nodes n) { access_order_q_node = node })

  abbrev pub set_write_order_q_node : Shared K → ℕ → Option ℕ → Shared K
  set_write_order_q_node sh n node =
      set_nodes sh n (record (sh.deq_nodes n) { write_order_q_node = node })

  abbrev pub unset_q_nodes : Shared K → ℕ → Shared K
  unset_q_nodes sh n =
      set_nodes sh n
        (record (sh.deq_nodes n) { access_order_q_node = none; write_order_q_node = none })

-- The operations that the channels carry to the policies.
pub data ReadOp {ℓ} (V : Type ℓ) : Type ℓ where
  hit : ValueEntry V → Bool → ReadOp V
  miss : ℕ → ReadOp V

-- The fields of `upsert`: key and hash, entry, generation, old weight, new weight.
pub data WriteOp {ℓ} (K V : Type ℓ) : Type ℓ where
  upsert : KeyHash K → ValueEntry V → ℕ → ℕ → ℕ → WriteOp K V
  remove : K → ValueEntry V → ℕ → WriteOp K V
