-- ===== src/Client/Invalidate.antt =====
-- src/sync/cache.rs: the invariant and the contents over `invalidate_with_hash`.
use moka.Base.{
  Bool, false, true, ◌≡◌, refl, subst, sym, ◌⊎◌, inl, inr, true, Option, none, some, if◌then◌else◌,
  Option-cases,
}
use moka.Time.{Instant}
use moka.EntryInfo.{incr_entry_gen, last_accessed, last_modified}
use moka.Concurrent.{ValueEntry, WriteOp}
use moka.Cache.{State, Config, get, erase, put_info, info_of}
use moka.Cache.Map.{taken_out, erase-absent, remove_absent, remove_done}
use moka.Cache.Invariant.{
  IsConsistent, AllPaired, Harmless-trans, IsConsistent-Harmless, put_info-Harmless,
  with_cache-IsConsistent, get-AllPaired, taken_out-Harmless,
}
use moka.Cache.Invariant.Handle.{IsWritable}
use moka.Client.{
  notify, invalidate_cause, notify_invalidate, remove_entry, after_removal, invalidate_with_hash,
}
use moka.Client.Contents.{Contents, Agrees, set_to}
use moka.Client.Insert.{notify-Harmless, either-Harmless, erase-AllPaired}

module _ {K V : Type 0} where
  abbrev pub IsSendable : Option (WriteOp K V) → Type 0
  IsSendable none = Unit {0}
  IsSendable (some op) = IsWritable op

module _ {K V : Type 0} (dec : Discrete K) (c : Config) (m : Contents K V) (s : State K V) (key : K)
    (need_value : Bool) (now : Instant) (h : IsConsistent (Agrees m) s) where
  abbrev pub IsInvalidated : State K V × Option (WriteOp K V) × Option V → Type 0
  IsInvalidated (s', op, value) =
      IsConsistent (Agrees (set_to dec m key none)) s'
      × IsSendable op
      × ((value ≡ none) ⊎ (value ≡ m key))

  -- The entry is out of the map, and the contents have nothing under the key.
  taken_out-IsConsistent :
      (e : ValueEntry V) → IsConsistent (Agrees (set_to dec m key none)) (taken_out dec s key e)
  taken_out-IsConsistent e =
      let s1 = taken_out dec s key e in
      with_cache-IsConsistent s1 (erase dec key s.cache)
        (IsConsistent-Harmless s s1 (taken_out-Harmless dec s key e) h)
        (erase-AllPaired dec m key none s.cache h.paired)

  answer :
      (b : Bool) (v : V)
      → m key ≡ some v
      → ((if b then some v else none) ≡ none) ⊎ ((if b then some v else none) ≡ m key)
  answer true v a = inr (sym a)
  answer false v a = inl refl

  removed-IsInvalidated :
      (e : ValueEntry V)
      → get dec key s.cache ≡ some e
      → IsInvalidated (after_removal dec c key need_value now (taken_out dec s key e, some e))
  unfolding after_removal notify_invalidate incr_entry_gen
  removed-IsInvalidated e g =
      let (p, a) = get-AllPaired dec (Agrees m) key s.cache e h.paired g in
      let s1 = taken_out dec s key e in
      let s2 = put_info s1 e.info (incr_entry_gen (info_of s1 e)).0 in
      let f = put_info-Harmless s1 e.info (incr_entry_gen (info_of s1 e)).0 refl in
      let cause =
        invalidate_cause c (last_accessed (info_of s2 e)) (last_modified (info_of s2 e)) now in
      let s3 = notify c s2 key e cause in
      let s' = if c.has_notifier then s3 else s2 in
      (
        IsConsistent-Harmless s1 s'
            (either-Harmless c.has_notifier s1 s3 s2
              (Harmless-trans s1 s2 s3 f (notify-Harmless c s2 key e cause)) f)
            (taken_out-IsConsistent e),
        p,
        answer need_value e.value a,
      )

  absent-IsInvalidated :
      get dec key s.cache ≡ none → IsInvalidated (after_removal dec c key need_value now (s, none))
  unfolding after_removal
  absent-IsInvalidated g = (
    with_cache-IsConsistent s s.cache h (
        subst (AllPaired (Agrees (set_to dec m key none))) (erase-absent dec key s.cache g)
          (erase-AllPaired dec m key none s.cache h.paired)),
    tt,
    inl refl,
  )

  pub invalidate_with_hash-IsInvalidated :
      IsInvalidated (invalidate_with_hash dec c s key need_value now)
  unfolding invalidate_with_hash remove_entry
  invalidate_with_hash-IsInvalidated = elim (Option-cases (get dec key s.cache)) [
    | inl g ↦
        subst (λ r. IsInvalidated (after_removal dec c key need_value now r))
          (sym (remove_absent dec s key (λ e. true) g)) (absent-IsInvalidated g)
    | inr (e, g) ↦
        subst (λ r. IsInvalidated (after_removal dec c key need_value now r))
          (sym (remove_done dec s key (λ e. true) e g refl)) (removed-IsInvalidated e g)
  ]
