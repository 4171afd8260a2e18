-- ===== src/Client/Insert.antt =====
-- src/sync/base_cache.rs: the invariant and the contents over `do_insert_with_hash`.
use mathlib.Core.Logic.{ite}
use moka.Base.{
  ℕ, ◌≡◌, refl, subst, sym, ◌∙◌, ◌≢◌, inl, inr, List, [], ◌∷◌, Bool, true, false, Option, none,
  some, if◌then◌else◌, Option-cases, Bool-cases, arith,
}
use moka.EntryInfo
use moka.EntryInfo.{EntryInfo, incr_entry_gen, set_expiration_time, expiration_state}
use moka.Concurrent.{ValueEntry, WriteOp}
use moka.Cache.{State, Config, RemovalCause, get, erase, info_of}
use moka.Cache.Map.{ite-yes, ite-no}
use moka.Cache.Linked.{IsPaired, is_admitted_at}
use moka.Cache.Linked.Timed.{timer_at}
use moka.Cache.Invariant.{
  AllPaired, IsConsistent, Harmless, Harmless-refl, Harmless-trans, IsConsistent-Harmless,
  put_info-Harmless, with_cache-IsConsistent, get-IsPaired,
}
use moka.Cache.Invariant.Handle.{IsWritable}
use moka.Get.Live.{updated_admitted}
use moka.Client.{
  Expiry, Insertion, has_expired_at, OldEntryInfo, old_entry_info, notify, upsert_cause,
  notify_upsert, new_value_entry, new_value_entry_from, expire_after_create, do_post_insert_steps,
  expire_updated, expired_state, do_post_update_steps, stored, insert_new, insert_over,
  do_insert_with_hash,
}
use moka.Client.Contents.{Contents, Agrees, set_to}

module _ {K V : Type 0} where
  pub notify-Harmless :
      (c : Config) (s : State K V) (key : K) (e : ValueEntry V) (cause : RemovalCause)
      → Harmless s (notify c s key e cause)
  unfolding notify
  notify-Harmless c s key e cause = elim (Bool-cases (c.has_notifier)) [
    | inl b ↦ rw b (record {
      same_links = record {
        same_deques = refl;
        same_count = refl;
        same_ao = λ i. refl;
        same_wo = λ i. refl;
        same_admitted = λ i. refl;
        later = omega arith;
      };
      same_wheel = refl;
      same_timers = λ i. refl;
      still_paired = λ P h. h;
    })
    | inr b ↦ rw b (Harmless-refl s)
  ]

  pub either-Harmless :
      (b : Bool) (s s1 s2 : State K V)
      → Harmless s s1
      → Harmless s s2
      → Harmless s (if b then s1 else s2)
  either-Harmless true s s1 s2 f g = f
  either-Harmless false s s1 s2 f g = g

  -- No node of the queues belongs to the address.
  abbrev pub IsFree : State K V → ℕ → Type 0
  IsFree s i = (is_admitted_at s i ≡ false) × (timer_at s i ≡ none)

  new_value_entry-Harmless :
      {P : K → ValueEntry V → Type 0} (s : State K V) (x : Insertion K V)
      → IsConsistent P s
      → IsFree s x.addr
      → Harmless s (new_value_entry s x).0
  unfolding new_value_entry EntryInfo.new
  new_value_entry-Harmless s x h (a, t) =
      let (ao, wo) = h.links.unadmitted_free x.addr a in
      record {
        same_links = record {
          same_deques = refl;
          same_count = refl;
          same_ao = λ i. grind (arith, ao);
          same_wo = λ i. grind (arith, wo);
          same_admitted = λ i. grind (arith, a);
          later = omega arith;
        };
        same_wheel = refl;
        same_timers = λ i. grind (arith, t);
        still_paired = λ P p. p;
      }

  new_value_entry_from-Harmless :
      (s : State K V) (x : Insertion K V) (other : ValueEntry V)
      → Harmless s (new_value_entry_from s x other).0
  unfolding new_value_entry_from incr_entry_gen
  new_value_entry_from-Harmless s x other = put_info-Harmless s other.info _ refl

  expire_after_create-Harmless :
      (expiry : Expiry K V) (others : List ℕ) (s : State K V) (key : K) (e : ValueEntry V) (ts : ℕ)
      → Harmless s (expire_after_create expiry others s key e ts)
  unfolding expire_after_create set_expiration_time
  expire_after_create-Harmless expiry others s key e ts = put_info-Harmless s e.info _ refl

  module _ (c : Config) (expiry : Option (Expiry K V)) where
    do_post_insert_steps-Harmless :
        (s : State K V) (x : Insertion K V) (e : ValueEntry V)
        → Harmless s (do_post_insert_steps c expiry s x e)
    unfolding do_post_insert_steps
    do_post_insert_steps-Harmless s x e =
        elim expiry as (λ u. Harmless s (do_post_insert_steps c u s x e)) [
          | none ↦ Harmless-refl s
          | some user ↦ expire_after_create-Harmless user x.others s x.key_hash.key e x.ts
        ]

    expire_updated-Harmless :
        (user : Expiry K V) (s : State K V) (x : Insertion K V) (old : OldEntryInfo V)
        (e : ValueEntry V)
        → Harmless s (expire_updated c user s x old e)
    unfolding expire_updated
    expire_updated-Harmless user s x old e =
        elim (Bool-cases (has_expired_at (expiration_state (info_of s old.entry)).0 x.ts)) [
          | inl b ↦ rw b (expire_after_create-Harmless user x.others s x.key_hash.key e x.ts)
          | inr b ↦ rw b (
              put_info-Harmless s e.info _ (
                updated_admitted c (λ d. user.expire_after_update x.key_hash.key e.value x.ts d)
                  x.others (info_of s e) x.ts))
        ]

    expired_state-Harmless :
        (u : Option (Expiry K V)) (s : State K V) (x : Insertion K V) (old : OldEntryInfo V)
        (e : ValueEntry V)
        → Harmless s (expired_state c u s x old e)
    expired_state-Harmless none s x old e = Harmless-refl s
    expired_state-Harmless (some user) s x old e = expire_updated-Harmless user s x old e

    do_post_update_steps-Harmless :
        (s : State K V) (x : Insertion K V) (old : OldEntryInfo V) (e : ValueEntry V)
        → Harmless s (do_post_update_steps c expiry s x old e)
    unfolding do_post_update_steps notify_upsert
    do_post_update_steps-Harmless s x old e =
        let s1 = expired_state c expiry s x old e in
        let f = expired_state-Harmless expiry s x old e in
        let cause = upsert_cause c old.last_accessed old.last_modified x.now in
        let s2 = notify c s1 x.key_hash.key old.entry cause in
        either-Harmless c.has_notifier s s2 s1
          (Harmless-trans s s1 s2 f (notify-Harmless c s1 x.key_hash.key old.entry cause)) f

module _ {K V : Type 0} (dec : Discrete K) where
  set_to_self : (m : Contents K V) (key : K) (value : Option V) → set_to dec m key value key ≡ value
  set_to_self m key value = ite-yes (dec key key) value (m key) refl

  set_to_other :
      (m : Contents K V) (key j : K) (value : Option V) → j ≢ key → set_to dec m key value j ≡ m j
  set_to_other m key j value n = ite-no (dec key j) value (m j) (λ q. n (sym q))

  -- The other entries, when the contents under a key change.
  pub erase-AllPaired :
      (m : Contents K V) (key : K) (value : Option V) (entries : List (K × ValueEntry V))
      → AllPaired (Agrees m) entries
      → AllPaired (Agrees (set_to dec m key value)) (erase dec key entries)
  unfolding erase
  erase-AllPaired m key value [] h = tt
  erase-AllPaired m key value ((j, e) ∷ entries) (p, a, h) =
      let ih = erase-AllPaired m key value entries h in
      elim (dec j key)
        as (λ d.
          AllPaired (Agrees (set_to dec m key value))
            (ite d (erase dec key entries) ((j, e) ∷ erase dec key entries))) [
              | yes q ↦ ih
              | no n ↦ (p, set_to_other m key j value n ∙ a, ih)
            ]

  -- The new entry of a key.
  stored-IsConsistent :
      (m : Contents K V) (s : State K V) (key : K) (e : ValueEntry V)
      → IsConsistent (Agrees m) s
      → IsPaired e
      → IsConsistent
          (Agrees (set_to dec m key (some e.value)))
          (record s { cache = (key, e) ∷ erase dec key s.cache })
  stored-IsConsistent m s key e h p =
      with_cache-IsConsistent s ((key, e) ∷ erase dec key s.cache) h
        (p, set_to_self m key (some e.value), erase-AllPaired m key (some e.value) s.cache h.paired)

module _ {K V : Type 0} (dec : Discrete K) (c : Config) (expiry : Option (Expiry K V))
    (m : Contents K V) (s : State K V) (x : Insertion K V) (h : IsConsistent (Agrees m) s) where
  -- The state is in order, and the message is of an entry that is paired.
  abbrev pub IsInserted : State K V × WriteOp K V → Type 0
  IsInserted (s', op) =
      IsConsistent (Agrees (set_to dec m x.key_hash.key (some x.value))) s' × IsWritable op

  insert_new-IsInserted : IsFree s x.addr → IsInserted (insert_new c expiry dec s x)
  unfolding insert_new new_value_entry
  insert_new-IsInserted free =
      let (s1, e, gen) = new_value_entry s x in
      let h1 = IsConsistent-Harmless s s1 (new_value_entry-Harmless s x h free) h in
      let s2 = stored c expiry dec s1 x.key_hash.key e in
      let h2 = stored-IsConsistent dec m s1 x.key_hash.key e h1 refl in
      (
        IsConsistent-Harmless s2 (do_post_insert_steps c expiry s2 x e)
            (do_post_insert_steps-Harmless c expiry s2 x e) h2,
        refl,
      )

  insert_over-IsInserted :
      (other : ValueEntry V)
      → get dec x.key_hash.key s.cache ≡ some other
      → IsInserted (insert_over c expiry dec s x other)
  unfolding insert_over new_value_entry_from incr_entry_gen
  insert_over-IsInserted other g =
      let p = get-IsPaired dec s x.key_hash.key other h g in
      let (s1, e, gen) = new_value_entry_from s x other in
      let h1 = IsConsistent-Harmless s s1 (new_value_entry_from-Harmless s x other) h in
      let s2 = stored c expiry dec s1 x.key_hash.key e in
      let h2 = stored-IsConsistent dec m s1 x.key_hash.key e h1 p in
      (
        IsConsistent-Harmless s2 (do_post_update_steps c expiry s2 x (old_entry_info s other) e)
            (do_post_update_steps-Harmless c expiry s2 x (old_entry_info s other) e) h2,
        p,
      )

  pub do_insert_with_hash-IsInserted :
      IsFree s x.addr → IsInserted (do_insert_with_hash c expiry dec s x)
  unfolding do_insert_with_hash
  do_insert_with_hash-IsInserted free = elim (Option-cases (get dec x.key_hash.key s.cache)) [
    | inl g ↦ subst (λ r. IsInserted (inserted r)) (sym g) (insert_new-IsInserted free)
    | inr (other, g) ↦ subst (λ r. IsInserted (inserted r)) (sym g) (insert_over-IsInserted other g)
  ]
    where
      inserted : Option (ValueEntry V) → State K V × WriteOp K V
      inserted none = insert_new c expiry dec s x
      inserted (some other) = insert_over c expiry dec s x other
