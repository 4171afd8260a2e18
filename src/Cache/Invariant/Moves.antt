-- ===== src/Cache/Invariant/Moves.antt =====
-- src/sync/base_cache.rs: the invariant over the moves within the deques and `apply_reads`.
use moka.Base.{
  All, ℕ, ◌≡◌, refl, sym, subst, ◌∙◌, inl, inr, List, [], ◌∷◌, Bool, true, false, not, some,
  Bool-cases, if◌then◌else◌, arith, ◌>>=◌,
}
use moka.Cache.{State}
use moka.Cache.Linked.{IsPaired}
use moka.EntryInfo.{is_alive}
use moka.Queue.{Queue}
use moka.Concurrent.{ValueEntry, ReadOp, hit, miss}
use moka.Sketch
use moka.Sketch.{FrequencySketch}
use moka.Deques.{Deques, move_to_back_ao, move_to_back_wo}
use moka.Cache.{info_of}
use moka.Cache.Policy.{apply_read, apply_reads}
use moka.Cache.Timer.{update_timer_wheel}
use moka.Cache.Linked.Move.{
  Moved, move_to_back_ao_total, move_to_back_wo-Moved, with_deques-IsLinked, with_deques,
  Moved-refl,
}
use moka.Cache.Invariant.{IsConsistent, IsTimed-frame, IsConsistent-Harmless, Keeps}
use moka.Cache.Invariant.Removal.{update_timer_wheel-Removes}

module _ {V : Type 0} where
  -- The entry of the message is paired.
  abbrev pub IsReadable : ReadOp V → Type 0
  IsReadable (hit e is_expiry_modified) = IsPaired e
  IsReadable (miss hash) = Unit {0}

  abbrev pub AllReadable : List (ReadOp V) → Type 0
  AllReadable ops = All IsReadable ops

module _ {K V : Type 0} {P : K → ValueEntry V → Type 0} (s : State K V) (h : IsConsistent P s) where
  -- Both deques rearranged.
  pub with_deques-IsConsistent :
      (q r : Queue ℕ)
      → Moved s.deques.probation q
      → Moved s.deques.write_order r
      → IsConsistent P (record s { deques = record s.deques { probation = q; write_order = r } })
  with_deques-IsConsistent q r mq mr = record {
    links = with_deques-IsLinked s h.links q r mq mr;
    timers = IsTimed-frame s (with_deques s h.links q r) refl (λ i. refl) (omega arith) h.timers;
    count = h.count ∙ sym mq.same_length;
    paired = h.paired;
  }

  -- `move_to_back_ao`, alone and before `move_to_back_wo`.
  pub move_to_back_ao-IsConsistent :
      (i : ℕ)
      → (d : Deques) × (move_to_back_ao s.deques s.shared i ≡ some d)
        × IsConsistent P (record s { deques = d })
        × IsConsistent P (record s { deques = move_to_back_wo d s.shared i })
  move_to_back_ao-IsConsistent i =
      let (q, k, m) = move_to_back_ao_total s h.links i in
      let d = record s.deques { probation = q } in
      let (r, k', m') = move_to_back_wo-Moved s h.links d i refl in
      (
        d,
        k,
        with_deques-IsConsistent q s.deques.write_order m
            (Moved-refl s.deques.write_order h.links.wo_distinct),
        subst (λ x. IsConsistent P (record s { deques = x })) (sym k')
            (with_deques-IsConsistent q r m m'),
      )

  with_sketch-IsConsistent : (skt : FrequencySketch) → IsConsistent P (record s { sketch = skt })
  with_sketch-IsConsistent skt =
      IsConsistent-Harmless s (record s { sketch = skt })
        (record {
          same_links = record {
            same_deques = refl;
            same_count = refl;
            same_ao = λ i. refl;
            same_wo = λ i. refl;
            same_admitted = λ i. refl;
            later = omega arith;
          };
          same_wheel = refl;
          same_timers = λ i. refl;
          still_paired = λ Q x. x;
        })
        h

module _ {K V : Type 0} {P : K → ValueEntry V → Type 0} where
  touched :
      (s : State K V)
      → IsConsistent P s
      → (i : ℕ)
      → Keeps P (do d ← move_to_back_ao s.deques s.shared i; some (record s { deques = d }))
  touched s h i =
      let (d, k, h1, h2) = move_to_back_ao-IsConsistent s h i in
      (record s { deques = d }, rw k refl, h1)

  apply_read-Keeps :
      (s : State K V)
      → IsConsistent P s
      → (op : ReadOp V) → IsReadable op
      → Keeps P (apply_read s op)
  unfolding apply_read
  apply_read-Keeps s h (miss hash) p =
      let s1 = record s { sketch = Sketch.increment s.sketch hash } in
      (s1, refl, with_sketch-IsConsistent s h (s1.sketch))
  apply_read-Keeps s h (hit e x) p =
      let s1 = record s { sketch = Sketch.increment s.sketch (info_of s e).key_hash.hash } in
      let h1 = with_sketch-IsConsistent s h (s1.sketch) in
      elim (Bool-cases ((info_of s e).is_retired)) [
        | inl r ↦ (s1, rw r refl, h1)
        | inr r ↦ alive s1 x h1 r
      ]
    where
      alive :
          (s1 : State K V) (x : Bool)
          → IsConsistent P s1
          → (info_of s e).is_retired ≡ false
          → Keeps P (
              if not (is_alive (info_of s e)) then some s1 else do
                s2 ← if x then update_timer_wheel s1 e else some s1
                d ← move_to_back_ao s2.deques s2.shared e.nodes
                some (record s2 { deques = d }))
      alive s1 false h1 r = let (s3, k, h3) = touched s1 h1 e.nodes in (s3, rw r k, h3)
      alive s1 true h1 r =
          let (s2, k, h2, d) = update_timer_wheel-Removes s1 e h1 p in
          let (s3, k3, h3) = touched s2 h2 e.nodes in (s3, rw r (rw k k3), h3)

  -- A batch of recorded reads on a consistent state, their entries paired with their queue nodes,
  -- succeeds and leaves a consistent state.
  pub apply_reads-IsConsistent :
      (s : State K V) (ops : List (ReadOp V))
      → IsConsistent P s
      → AllReadable ops
      → (s' : State K V) × (apply_reads s ops ≡ some s') × IsConsistent P s'
  unfolding apply_reads
  apply_reads-IsConsistent s [] h p = (s, refl, h)
  apply_reads-IsConsistent s (op ∷ ops) h p =
      let (s1, k1, h1) = apply_read-Keeps s h op p.0 in
      let (s2, k2, h2) = apply_reads-IsConsistent s1 ops h1 p.1 in (s2, rw k1 k2, h2)
