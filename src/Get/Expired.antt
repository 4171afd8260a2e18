-- ===== src/Get/Expired.antt =====
-- src/sync/base_cache.rs: which entries the lookups take for expired or invalidated.
use mathlib.Core.Option.{some-injective, none-ne-some}
use moka.Base.{
  leb, ◌≤◌, ◌<◌, ◌≡◌, ◌↔◌, refl, subst, Bool, true, false, ◌||◌, Option, none, some, arith,
  Bool-cases, inl, inr,
}
use moka.Time
use moka.Time.{Instant, Duration}
use moka.EntryInfo.{expiration_state, last_modified, last_accessed}
use moka.Concurrent.{ValueEntry}
use moka.Cache.{State, Config, info_of}
use moka.Cache.Expiry.{
  is_expired_by_per_entry_ttl, is_expired_entry_ao, is_expired_entry_wo, is_invalid_entry,
  is_expired_by_tti, is_expired_by_ttl,
}
use moka.Invalidator.{Invalidator, apply_predicates, do_apply_predicates}
use moka.Invalidator.Unmet.{IsUnmet, do_apply_predicates_iff}
use moka.Get.{is_invalidated_entry}

-- A time not before that of `invalidate_all`, and a life from then on that has not run out.
abbrev pub IsInTime : Option Instant → Option Duration → Instant → Instant → Type 0
IsInTime none none ts now = Unit {0}
IsInTime none (some d) ts now = now < Time.saturating_add ts d
IsInTime (some va) none ts now = va ≤ ts
IsInTime (some va) (some d) ts now = (va ≤ ts) × (now < Time.saturating_add ts d)

module _ {K V : Type 0} (c : Config) (v : Option (Invalidator K V)) (s : State K V) (key : K)
    (e : ValueEntry V) (now : Instant) where
  -- The entry has neither expired nor been invalidated.
  pub record IsLive : Type 0 where
    pub unexpired : (ts : Instant) → (expiration_state (info_of s e)).0 ≡ some ts → now < ts
    pub written :
        (lm : Instant)
        → last_modified (info_of s e) ≡ some lm
        → IsInTime c.valid_after c.time_to_live lm now
    pub accessed :
        (la : Instant)
        → last_accessed (info_of s e) ≡ some la
        → IsInTime c.valid_after c.time_to_idle la now
    pub unmet :
        (i : Invalidator K V)
        → v ≡ some i
        → i.is_empty ≡ false
        → (lm : Instant) → last_modified (info_of s e) ≡ some lm
        → IsUnmet i.predicates key e.value lm

  -- The condition as the lookups write it.
  abbrev pub is_gone : Bool
  is_gone =
      is_expired_by_per_entry_ttl (info_of s e) now
      || is_expired_entry_wo c.time_to_live c.valid_after (info_of s e) now
      || is_expired_entry_ao c.time_to_idle c.valid_after (info_of s e) now
      || is_invalidated_entry v s key e

pub all_lem :
    {A : Type 0} (test : A → Bool) (o : Option A)
    → ((elim o as (λ x. Bool) [ none ↦ false | some a ↦ test a ]) ≡ false)
      ↔ ((a : A) → o ≡ some a → test a ≡ false)
all_lem test none = (λ h a e. absurd (none-ne-some a e), λ h. refl)
all_lem test (some b) =
    (λ h a e. subst (λ x. test x ≡ false) (some-injective b a e) h, λ h. h b refl)

written_lem :
    (va : Option Instant) (ttl : Option Duration) (ts now : Instant)
    → ((is_invalid_entry va ts || is_expired_by_ttl ttl ts now) ≡ false) ↔ IsInTime va ttl ts now
unfolding is_invalid_entry is_expired_by_ttl
written_lem none none ts now = ground arith
written_lem none (some d) ts now = ground arith
written_lem (some va) none ts now = ground arith
written_lem (some va) (some d) ts now = ground arith

accessed_lem :
    (va : Option Instant) (tti : Option Duration) (ts now : Instant)
    → ((is_invalid_entry va ts || is_expired_by_tti tti ts now) ≡ false) ↔ IsInTime va tti ts now
unfolding is_invalid_entry is_expired_by_tti
accessed_lem none none ts now = ground arith
accessed_lem none (some d) ts now = ground arith
accessed_lem (some va) none ts now = ground arith
accessed_lem (some va) (some d) ts now = ground arith

module _ {K V : Type 0} (c : Config) (s : State K V) (key : K) (e : ValueEntry V)
    (now : Instant) where
  IsSparing : Invalidator K V → Type 0
  IsSparing i =
      i.is_empty ≡ false
      → (lm : Instant) → last_modified (info_of s e) ≡ some lm
      → IsUnmet i.predicates key e.value lm

  apply_predicates_lem : (i : Invalidator K V) → (apply_predicates i s key e ≡ false) ↔ IsSparing i
  unfolding apply_predicates IsSparing
  apply_predicates_lem i =
      let applied =
        all_lem (do_apply_predicates i.predicates key e.value) (last_modified (info_of s e)) in
      elim (Bool-cases i.is_empty) [
        | inl w ↦ (λ h n. absurd (ground (arith, w, n)), λ h. rw w refl)
        | inr w ↦ rw w (
          λ h n lm m. (do_apply_predicates_iff i.predicates key e.value lm).0 (applied.0 h lm m),
          λ h.
              applied.1
                (λ lm m. (do_apply_predicates_iff i.predicates key e.value lm).1 (h refl lm m)),
        )
      ]

  invalidated_lem :
      (v : Option (Invalidator K V))
      → (is_invalidated_entry v s key e ≡ false)
        ↔ ((i : Invalidator K V) → v ≡ some i → IsSparing i)
  unfolding is_invalidated_entry
  invalidated_lem none = (λ h i q. absurd (none-ne-some i q), λ h. refl)
  invalidated_lem (some j) =
      let (to, from) = apply_predicates_lem j in
      (λ h i q. subst IsSparing (some-injective j i q) (to h), λ h. from (h j refl))

  pub is_gone_iff :
      (v : Option (Invalidator K V)) → (is_gone c v s key e now ≡ false) ↔ IsLive c v s key e now
  unfolding IsSparing is_expired_by_per_entry_ttl is_expired_entry_wo is_expired_entry_ao
  is_gone_iff v =
      let own = all_lem (λ ts. leb ts now) (expiration_state (info_of s e)).0 in
      let wo =
        all_lem (λ ts. is_invalid_entry c.valid_after ts || is_expired_by_ttl c.time_to_live ts now)
          (last_modified (info_of s e)) in
      let ao =
        all_lem (λ ts. is_invalid_entry c.valid_after ts || is_expired_by_tti c.time_to_idle ts now)
          (last_accessed (info_of s e)) in
      let inv = invalidated_lem v in
      (
        λ h.
            let (a, b, d, f) = none_of h in
            record {
              unexpired = λ ts q. let k = own.0 a ts q in ground (arith, k);
              written = λ lm q. (written_lem c.valid_after c.time_to_live lm now).0 (wo.0 b lm q);
              accessed = λ la q. (accessed_lem c.valid_after c.time_to_idle la now).0 (ao.0 d la q);
              unmet = inv.0 f;
            },
        λ l.
            rw
              (
                own.1 (λ ts q. let k = l.unexpired ts q in ground (arith, k)),
                wo.1 (λ lm q. (written_lem c.valid_after c.time_to_live lm now).1 (l.written lm q)),
                ao.1 (λ la q.
                    (accessed_lem c.valid_after c.time_to_idle la now).1 (l.accessed la q)),
                inv.1 l.unmet,
              )
              refl,
      )
    where
      none_of :
          {a b d f : Bool}
          → (a || b || d || f) ≡ false
          → (a ≡ false) × (b ≡ false) × (d ≡ false) × (f ≡ false)
      none_of {a = false} {b = false} {d = false} h = (refl, refl, refl, h)
      none_of {a = true} h = absurd (ground (arith, h))
      none_of {a = false} {b = true} h = absurd (ground (arith, h))
      none_of {a = false} {b = false} {d = true} h = absurd (ground (arith, h))
