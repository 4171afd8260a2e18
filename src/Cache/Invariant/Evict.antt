-- ===== src/Cache/Invariant/Evict.antt =====
-- src/sync/base_cache.rs: the invariant over a turn of the evictions for size and for expiry.
use moka.Base.{
  ℕ, ◌≡◌, refl, ap, ◌∙◌, inl, inr, Bool, true, false, Option, none, some, Option-cases, Bool-cases,
  if◌then◌else◌, arith, ◌>>=◌,
}
use moka.Concurrent.{ValueEntry}
use moka.Cache.{State, Config, RemovalCause, get, record_eviction}
use moka.Cache.Map.{taken_out}
use moka.Queue.{move_front_to_back}
use moka.Deques.{move_to_back_ao, move_to_back_wo}
use moka.Cache.{info_of}
use moka.Cache.Map.{remove_cases}
use moka.Cache.Linked.Move.{Moved-refl, Moved-move_front_to_back}
use moka.Cache.Invariant.{IsConsistent, IsTimed-frame, get-IsPaired, Keeps}
use moka.Cache.Invariant.Moves.{with_deques-IsConsistent, move_to_back_ao-IsConsistent}
use moka.EntryInfo.{is_dirty}
use moka.Cache.Policy.{handle_remove_with_deques}
use moka.Cache.Evict.{skip_updated_entry_ao, skip_updated_entry_wo, try_evict, note_more}
use moka.Cache.Invariant.Removal.{handle_remove_with_deques-Removes}
use moka.Cache.Invariant.Victims.{evicted-IsConsistent}

module _ {K V : Type 0} (dec : Discrete K) (c : Config) where
  abbrev skip_after_ao : State K V → Option (ValueEntry V) → Option (State K V)
  skip_after_ao s none =
      some (record s {
        deques = record s.deques { probation = move_front_to_back s.deques.probation };
      })
  skip_after_ao s (some e) = do
    d ← move_to_back_ao s.deques s.shared e.nodes
    some (record s {
      deques = if is_dirty (info_of s e) then move_to_back_wo d s.shared e.nodes else d;
    })

  abbrev skip_after_wo : State K V → Option (ValueEntry V) → Option (State K V)
  skip_after_wo s none = some (record s {
    deques = record s.deques { write_order = move_front_to_back s.deques.write_order };
  })
  skip_after_wo s (some e) = do
    d ← move_to_back_ao s.deques s.shared e.nodes
    some (record s { deques = move_to_back_wo d s.shared e.nodes })

  -- A removal from the map, and what the policies then do.
  abbrev evict_after :
      K
      → RemovalCause
      → State K V × Option (ValueEntry V)
      → Option (State K V × Option (ValueEntry V))
  evict_after key cause (s, none) = do s2 ← skip_updated_entry_ao dec c s key; some (s2, none)
  evict_after key cause (s, some e) = do
    s2 ← handle_remove_with_deques (record_eviction c s key e cause) e
    some (s2, some e)

module _ {K V : Type 0} {P : K → ValueEntry V → Type 0} (dec : Discrete K) (c : Config) where
  pub skip_updated_entry_ao-Keeps :
      (s : State K V) (key : K) → IsConsistent P s → Keeps P (skip_updated_entry_ao dec c s key)
  unfolding skip_updated_entry_ao
  skip_updated_entry_ao-Keeps s key h = elim (Option-cases (get dec key s.cache)) [
    | inl g ↦
        let q = move_front_to_back s.deques.probation in
        (
          record s { deques = record s.deques { probation = q } },
          ap (skip_after_ao dec c s) g,
          with_deques-IsConsistent s h q s.deques.write_order
              (Moved-move_front_to_back s.deques.probation h.links.ao_distinct)
              (Moved-refl s.deques.write_order h.links.wo_distinct),
        )
    | inr (e, g) ↦
        let (d, k, h1, h2) = move_to_back_ao-IsConsistent s h e.nodes in
        elim (Bool-cases (is_dirty (info_of s e))) [
          | inl b ↦ (
            record s { deques = move_to_back_wo d s.shared e.nodes },
            ap (skip_after_ao dec c s) g ∙ rw k (rw b refl),
            h2,
          )
          | inr b ↦ (record s { deques = d }, ap (skip_after_ao dec c s) g ∙ rw k (rw b refl), h1)
        ]
  ]

  pub skip_updated_entry_wo-Keeps :
      (s : State K V) (key : K) → IsConsistent P s → Keeps P (skip_updated_entry_wo dec c s key)
  unfolding skip_updated_entry_wo
  skip_updated_entry_wo-Keeps s key h = elim (Option-cases (get dec key s.cache)) [
    | inl g ↦
        let r = move_front_to_back s.deques.write_order in
        (
          record s { deques = record s.deques { write_order = r } },
          ap (skip_after_wo dec c s) g,
          with_deques-IsConsistent s h s.deques.probation r
              (Moved-refl s.deques.probation h.links.ao_distinct)
              (Moved-move_front_to_back s.deques.write_order h.links.wo_distinct),
        )
    | inr (e, g) ↦
        let (d, k, h1, h2) = move_to_back_ao-IsConsistent s h e.nodes in
        (
          record s { deques = move_to_back_wo d s.shared e.nodes },
          ap (skip_after_wo dec c s) g ∙ rw k refl,
          h2,
        )
  ]

  pub try_evict-Keeps :
      (s : State K V) (key : K) (cause : RemovalCause) (condition : ValueEntry V → Bool)
      → IsConsistent P s
      → (s' : State K V) × (removed : Option (ValueEntry V)) × (try_evict dec c s key cause
            condition
          ≡ some (s', removed))
        × IsConsistent P s'
  unfolding try_evict
  try_evict-Keeps s key cause condition h = elim (remove_cases dec s key condition) [
    | inl k ↦
        let (s2, k2, h2) = skip_updated_entry_ao-Keeps s key h in
        (s2, none, ap (evict_after dec c key cause) k ∙ rw k2 refl, h2)
    | inr (e, g, k) ↦
        let s1 = record_eviction c (taken_out dec s key e) key e cause in
        let (s2, k2, h2, d) =
          handle_remove_with_deques-Removes s1 e (evicted-IsConsistent dec c s key e cause h)
            (get-IsPaired dec s key e h g) in
        (s2, some e, ap (evict_after dec c key cause) k ∙ rw k2 refl, h2)
  ]

  pub noted-IsConsistent :
      (s : State K V) (more : Bool) → IsConsistent P s → IsConsistent P (note_more dec c s more)
  noted-IsConsistent s false h = h
  noted-IsConsistent s true h = record {
    links = record {
      ao_distinct = h.links.ao_distinct;
      wo_distinct = h.links.wo_distinct;
      ao_owner = h.links.ao_owner;
      ao_valid = h.links.ao_valid;
      wo_owner = h.links.wo_owner;
      wo_valid = h.links.wo_valid;
      admitted_linked = h.links.admitted_linked;
      unadmitted_free = h.links.unadmitted_free;
      ao_fresh = h.links.ao_fresh;
      wo_fresh = h.links.wo_fresh;
      window_empty = h.links.window_empty;
      protected_empty = h.links.protected_empty;
    };
    timers = IsTimed-frame s (note_more dec c s true) refl (λ i. refl) (omega arith) h.timers;
    count = h.count;
    paired = h.paired;
  }

-- A loop that ends, in a state in order.
module _ {K V : Type 0} (P : K → ValueEntry V → Type 0) where
  abbrev pub Evicts : Option (State K V × ℕ × Bool) → Type 0
  Evicts r =
      (s' : State K V) × (evicted : ℕ) × (more : Bool) × (r ≡ some (s', evicted, more))
      × IsConsistent P s'

  abbrev pub Expires : Option (State K V × Bool) → Type 0
  Expires r = (s' : State K V) × (more : Bool) × (r ≡ some (s', more)) × IsConsistent P s'
