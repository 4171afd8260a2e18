-- ===== src/Client/Reads.antt =====
-- src/sync/base_cache.rs: a lookup after an insertion.
use moka.Base.{
  ℕ, ◌<◌, ◌≡◌, refl, ap, subst, sym, ◌∙◌, inl, inr, List, ◌∷◌, Bool, true, false, ◌||◌, Option,
  none, some, if◌then◌else◌, Option-cases, arith,
}
use moka.Base.Word.{u64_max}
use moka.Time.{Instant, instant}
use moka.EntryInfo
use moka.EntryInfo.{
  EntryInfo, expiration_state, incr_entry_gen, unpack, set_policy_weight, set_last_modified,
  set_last_accessed, last_accessed, last_modified,
}
use moka.Concurrent.{ValueEntry, WriteOp, update}
use moka.Cache.{State, Config, get, info_of, erase}
use moka.Cache.Map.{ite-yes}
use moka.Cache.Expiry.{
  is_expired_by_per_entry_ttl, is_invalid_entry, is_expired_by_tti, is_expired_by_ttl,
  is_expired_entry_ao, is_expired_entry_wo,
}
use moka.Get.Expired.{is_gone}
use moka.Get.{is_invalidated_entry, scanning_get}
use moka.Client.{
  Insertion, new_value_entry, new_value_entry_from, do_post_insert_steps, do_post_update_steps,
  insert_new, insert_over, stored, old_entry_info, upsert_cause, do_insert_with_hash, notify,
  notify_upsert,
}

update_self : {A : Type 0} (f : ℕ → A) (a : ℕ) (v : A) → update f a v a ≡ v
update_self f a v = ground arith

module _ {K V : Type 0} (dec : Discrete K) (c : Config) (s : State K V) (x : Insertion K V)
    (now : Instant) (set : x.ts < u64_max)
    (alive : is_expired_by_ttl c.time_to_live x.ts now ≡ false)
    (awake : is_expired_by_tti c.time_to_idle x.ts now ≡ false)
    (valid : is_invalid_entry c.valid_after x.ts ≡ false) where
  abbrev ends_wo : Option Instant → Bool
  ends_wo none = false
  ends_wo (some ts) = is_invalid_entry c.valid_after ts || is_expired_by_ttl c.time_to_live ts now

  abbrev ends_ao : Option Instant → Bool
  ends_ao none = false
  ends_ao (some ts) = is_invalid_entry c.valid_after ts || is_expired_by_tti c.time_to_idle ts now

  wo_lem :
      (info : EntryInfo K)
      → last_modified info ≡ some x.ts
      → is_expired_entry_wo c.time_to_live c.valid_after info now ≡ false
  unfolding is_expired_entry_wo
  wo_lem info m = ap ends_wo m ∙ rw (valid, alive) refl

  ao_lem :
      (info : EntryInfo K)
      → last_accessed info ≡ some x.ts
      → is_expired_entry_ao c.time_to_idle c.valid_after info now ≡ false
  unfolding is_expired_entry_ao
  ao_lem info a = ap ends_ao a ∙ rw (valid, awake) refl

  -- An info that was written at the time of the insertion, and has not expired on its own.
  fresh_lem :
      (s1 : State K V) (e : ValueEntry V)
      → (info_of s1 e).last_accessed ≡ x.ts
      → (info_of s1 e).last_modified ≡ x.ts
      → is_expired_by_per_entry_ttl (info_of s1 e) now ≡ false
      → is_gone c none s1 x.key_hash.key e now ≡ false
  unfolding is_invalidated_entry
  fresh_lem s1 e a m p =
      rw
        (
          p,
          wo_lem (info_of s1 e) (ap instant m ∙ set_lem),
          ao_lem (info_of s1 e) (ap instant a ∙ set_lem),
        )
        refl
    where
      set_lem : instant x.ts ≡ some x.ts
      set_lem = ground (arith, set)

  abbrev scanned : State K V → Option (ValueEntry V) → Option V
  scanned s1 none = none
  scanned s1 (some e) = if is_gone c none s1 x.key_hash.key e now then none else some e.value

  -- The map has the entry under the key, and it is fresh.
  scanned_lem :
      (s1 : State K V) (e : ValueEntry V)
      → get dec x.key_hash.key s1.cache ≡ some e
      → is_gone c none s1 x.key_hash.key e now ≡ false
      → e.value ≡ x.value
      → scanning_get dec c none s1 x.key_hash.key now ≡ some x.value
  unfolding scanning_get
  scanned_lem s1 e g f v = ap (scanned s1) g ∙ rw f (ap some v)

  get_new :
      (e : ValueEntry V) (entries : List (K × ValueEntry V))
      → get dec x.key_hash.key ((x.key_hash.key, e) ∷ entries) ≡ some e
  unfolding get
  get_new e entries =
      ite-yes (dec x.key_hash.key x.key_hash.key) (some e) (get dec x.key_hash.key entries) refl

  new_lem : is_expired_by_per_entry_ttl (EntryInfo.new x.key_hash x.ts x.weight) now ≡ false
  unfolding is_expired_by_per_entry_ttl expiration_state EntryInfo.new unpack
  new_lem = refl

  -- The info that an entry shares with the one that takes its place.
  abbrev rewritten : ValueEntry V → EntryInfo K
  unfolding incr_entry_gen
  rewritten other =
      set_policy_weight
        (set_last_modified (set_last_accessed (incr_entry_gen (info_of s other)).0 x.ts) x.ts)
        x.weight

  found_new :
      scanning_get dec c none (insert_new c none dec s x).0 x.key_hash.key now ≡ some x.value
  unfolding insert_new new_value_entry do_post_insert_steps EntryInfo.new
      is_expired_by_per_entry_ttl unpack
  found_new =
      let (s1, op) = insert_new c none dec s x in
      let e : ValueEntry V = record { value = x.value; info = x.addr; nodes = x.addr } in
      scanned_lem s1 e (get_new e (erase dec x.key_hash.key s.cache))
        (fresh_lem s1 e (ground arith) (ground arith) (
          ap (λ i. is_expired_by_per_entry_ttl i now)
            (update_self s.shared.infos x.addr (EntryInfo.new x.key_hash x.ts x.weight))
          ∙ new_lem))
        refl

  -- The client finds the value.
  abbrev Shows : State K V → Type 0
  Shows s1 = scanning_get dec c none s1 x.key_hash.key now ≡ some x.value

  either-Shows : (b : Bool) (s1 s2 : State K V) → Shows s1 → Shows s2 → Shows (if b then s1 else s2)
  either-Shows true s1 s2 h g = h
  either-Shows false s1 s2 h g = g

  module _ (other : ValueEntry V)
      (unexpired : is_expired_by_per_entry_ttl (info_of s other) now ≡ false) where
    found_as :
        (s1 : State K V) (e : ValueEntry V)
        → e.value ≡ x.value
        → e.info ≡ other.info
        → s1.shared ≡ (new_value_entry_from s x other).0.shared
        → get dec x.key_hash.key s1.cache ≡ some e
        → Shows s1
    unfolding new_value_entry_from incr_entry_gen is_expired_by_per_entry_ttl expiration_state
    found_as s1 e v i sh g =
        scanned_lem s1 e g
          (fresh_lem s1 e (rw (sh, i) (ground arith)) (rw (sh, i) (ground arith)) (
            rw (sh, i)
              (ap (λ j. is_expired_by_per_entry_ttl j now)
                  (update_self s.shared.infos other.info (rewritten other))
                ∙ unexpired)))
          v

    found_over : Shows (insert_over c none dec s x other).0
    unfolding insert_over new_value_entry_from do_post_update_steps notify_upsert notify
    found_over =
        let (s1, e, gen) = new_value_entry_from s x other in
        let s2 = stored c none dec s1 x.key_hash.key e in
        let g = get_new e (erase dec x.key_hash.key s.cache) in
        let old = old_entry_info s other in
        let s3 =
          notify c s2 x.key_hash.key other
            (upsert_cause c old.last_accessed old.last_modified x.now) in
        let h2 = found_as s2 e refl refl refl g in
        either-Shows c.has_notifier s3 s2
          (either-Shows c.has_notifier
            (record s2 {
              notified =
                  (
                    x.key_hash.key,
                    other.value,
                    upsert_cause c old.last_accessed old.last_modified x.now,
                  )
                  ∷ s2.notified;
            })
            s2 (found_as _ e refl refl refl g) h2)
          h2

  -- A value that was inserted at a set time is found under its key, whether the map had an
  -- entry for the key or not, in a cache without `Expiry` and predicates: as long as the time
  -- to live and the time to idle have not run out since the insertion, it was not before the
  -- last `invalidate_all`, and the old entry of the key, if there is one, has no expiration of
  -- its own that has passed. An insertion at the very time of `invalidate_all` is not before
  -- it.
  pub scanning_get-do_insert_with_hash :
      ((e : ValueEntry V)
        → get dec x.key_hash.key s.cache ≡ some e
        → is_expired_by_per_entry_ttl (info_of s e) now ≡ false)
      → scanning_get dec c none (do_insert_with_hash c none dec s x).0 x.key_hash.key now
        ≡ some x.value
  unfolding do_insert_with_hash
  scanning_get-do_insert_with_hash p = elim (Option-cases (get dec x.key_hash.key s.cache)) [
    | inl g ↦ subst (λ r. Shows (inserted r).0) (sym g) found_new
    | inr (other, g) ↦ subst (λ r. Shows (inserted r).0) (sym g) (found_over other (p other g))
  ]
    where
      inserted : Option (ValueEntry V) → State K V × WriteOp K V
      inserted none = insert_new c none dec s x
      inserted (some other) = insert_over c none dec s x other
