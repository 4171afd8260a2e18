-- ===== src/Get/Live.antt =====
-- src/sync/base_cache.rs: what the lookups return, and what they leave.
use mathlib.Core.Option
use mathlib.Core.Option.{some-ne-none, some-injective, none-ne-some}
use moka.Get.Expired.{is_gone}
use moka.Base.{
  ◌↔◌, ℕ, ◌<◌, ◌≡◌, ◌≢◌, ◌⊎◌, refl, sym, ap, ◌∙◌, inl, inr, List, Bool, true, false, ◌||◌, Option,
  none, some, ◌>>=◌, arith, Bool-cases, Option-cases, if◌then◌else◌, max,
}
use moka.Time.{Instant, Duration}
use moka.EntryInfo.{EntryInfo, last_modified, set_last_accessed, set_expiration_time}
use moka.Concurrent.{ValueEntry, ReadOp, hit, miss}
use moka.Cache.{State, Config, info_of, put_info, get}
use moka.Cache.Expiry.{
  is_expired_by_per_entry_ttl, is_expired_entry_ao, is_expired_entry_wo, is_invalid_entry,
}
use moka.Cache.Invariant.{
  put_info-Harmless, IsConsistent, Harmless, IsConsistent-Harmless, get-IsPaired,
}
use moka.Cache.Invariant.Moves.{IsReadable}
use moka.Invalidator.{Invalidator}
use moka.Get.Found.{found_value, found_value_iff, Finds}
use moka.Get.{
  ExpireAfterRead, is_invalidated_entry, invalidate_all, expire_after_read_or_update,
  is_map_disabled, scanning_get, find_entry, read_entry, do_get,
}

module _ {V : Type 0} where
  -- The message that a lookup records, if any, is paired.
  abbrev pub IsRecordable : Option (ReadOp V) → Type 0
  IsRecordable none = Unit {0}
  IsRecordable (some op) = IsReadable op

module _ {K : Type 0} (c : Config) where
  pub updated_admitted :
      (expiry : Option Duration → Option Duration) (others : List ℕ) (info : EntryInfo K)
      (ts : Instant)
      → ((expire_after_read_or_update expiry c others info ts).0).is_admitted ≡ info.is_admitted
  unfolding expire_after_read_or_update set_expiration_time
  updated_admitted expiry others info ts = grind arith

module _ {K V : Type 0} (dec : Discrete K) (c : Config) (v : Option (Invalidator K V)) where
  found_lem :
      (ignore_if : Option (V → Bool)) (s : State K V) (key : K) (now : Instant) (e : ValueEntry V)
      → find_entry dec c v ignore_if s key now ≡ some e
      → get dec key s.cache ≡ some e
  unfolding find_entry
  found_lem ignore_if s key now e f = go (get dec key s.cache) f
    where
      ignored : ValueEntry V → Bool
      ignored x = elim ignore_if as (λ y. Bool) [ none ↦ false | some ignores ↦ ignores x.value ]

      go :
          (r : Option (ValueEntry V))
          → (elim r as (λ y. Option (ValueEntry V)) [
            | none ↦ none
            | some x ↦
                if elim ignore_if as (λ y. Bool) [ none ↦ false | some ignores ↦ ignores x.value ]
                then none
                else if is_gone c v s key x now
                then none
                else some x
          ])
            ≡ some e
          → r ≡ some e
      go none k = cc
      go (some x) k = elim (Bool-cases (ignored x)) [
        | inl w ↦ absurd (none_some (sym (rw w refl) ∙ k))
        | inr w ↦ elim (Bool-cases (is_gone c v s key x now)) [
          | inl g ↦ absurd (none_some (sym (rw (w, g) refl) ∙ k))
          | inr g ↦ sym (rw (w, g) refl) ∙ k
        ]
      ]
        where
          none_some : {A : Type 0} {a : A} → none ≡ some a → ⊥
          none_some h = cc

  module _ (others : List ℕ) (s : State K V) (e : ValueEntry V) (now : Instant) where
    abbrev updated : ExpireAfterRead K V → Instant → EntryInfo K × Bool
    updated expiry lm =
        expire_after_read_or_update
          (λ d. expiry (info_of s e).key_hash.key e.value (max now lm) d lm) c others (info_of s e)
          (max now lm)

    abbrev read_after : ExpireAfterRead K V → Option Instant → Option (State K V × Bool)
    read_after expiry none = none
    read_after expiry (some lm) = some (
      put_info s e.info (set_last_accessed (updated expiry lm).0 (max now lm)),
      (updated expiry lm).1,
    )

    read_total :
        (expiry : Option (ExpireAfterRead K V))
        → (expiry ≢ none → last_modified (info_of s e) ≢ none)
        → (s' : State K V) × (b : Bool) × (read_entry dec c v expiry others s e now ≡ some (s', b))
          × Harmless s s'
    unfolding read_entry
    read_total none m =
        let info = set_last_accessed (info_of s e) now in
        (put_info s e.info info, false, refl, put_info-Harmless s e.info info refl)
    read_total (some expiry) m = elim (Option-cases (last_modified (info_of s e))) [
      | inl h ↦ absurd (m (some-ne-none expiry) h)
      | inr (lm, h) ↦
          let info = set_last_accessed (updated expiry lm).0 (max now lm) in
          (
            put_info s e.info info,
            (updated expiry lm).1,
            ap (read_after expiry) h,
            put_info-Harmless s e.info info (
                updated_admitted c
                  (λ d. expiry (info_of s e).key_hash.key e.value (max now lm) d lm) others
                  (info_of s e) (max now lm)),
          )
    ]

  -- A lookup finds what the entry of the key holds, or nothing.
  pub found_value_cases :
      (ignore_if : Option (V → Bool)) (s : State K V) (key : K) (now : Instant)
      → (found_value dec c v ignore_if s key now ≡ none)
        ⊎ ((e : ValueEntry V) × (get dec key s.cache ≡ some e)
            × (found_value dec c v ignore_if s key now ≡ some e.value))
  found_value_cases ignore_if s key now = elim (Bool-cases (is_map_disabled c)) [
    | inl d ↦ inl (rw d refl)
    | inr d ↦ elim (Option-cases (find_entry dec c v ignore_if s key now)) [
      | inl f ↦ inl (rw (d, f) refl)
      | inr (e, f) ↦ inr (e, found_lem ignore_if s key now e f, rw (d, f) refl)
    ]
  ]

  module _ {P : K → ValueEntry V → Type 0} (ignore_if : Option (V → Bool))
      (expiry : Option (ExpireAfterRead K V)) (others : List ℕ) (s : State K V) (key : K) (hash : ℕ)
      (now : Instant) (h : IsConsistent P s)
      (set : expiry ≢ none
        → (e : ValueEntry V) → get dec key s.cache ≡ some e
        → last_modified (info_of s e) ≢ none) where
    abbrev get_after : Option (ValueEntry V) → Option (State K V × Option V × Option (ReadOp V))
    get_after none = some (s, none, some (miss hash))
    get_after (some e) = do
      (s1, modified) ← read_entry dec c v expiry others s e now
      some (s1, some e.value, some (hit e modified))

    enabled :
        (r : Option (ValueEntry V))
        → find_entry dec c v ignore_if s key now ≡ r
        → (s' : State K V) × (op : Option (ReadOp V)) × (get_after r
            ≡ some (s', Option.map (λ e. e.value) r, op))
          × IsConsistent P s'
          × IsRecordable op
    enabled none f = (s, some (miss hash), refl, h, tt)
    enabled (some e) f =
        let g = found_lem ignore_if s key now e f in
        let (s1, b, k, x) = read_total others s e now expiry (λ n. set n e g) in
        (
          s1,
          some (hit e b),
          rw k refl,
          IsConsistent-Harmless s s1 x h,
          get-IsPaired dec s key e h g,
        )

    -- The value returned is that of the entry which the lookup finds.
    pub do_get_found :
        (s' : State K V) × (op : Option (ReadOp V)) × (do_get dec c v ignore_if expiry others s key
            hash now
          ≡ some (s', found_value dec c v ignore_if s key now, op))
        × IsConsistent P s'
        × IsRecordable op
    unfolding do_get
    do_get_found = elim (Bool-cases (is_map_disabled c)) [
      | inl d ↦ (s, none, rw d refl, h, tt)
      | inr d ↦
          let (s1, op, k, h1, p) = enabled (find_entry dec c v ignore_if s key now) refl in
          (s1, op, rw d k, h1, p)
    ]

    -- A lookup in a consistent state, where the entry of the key, if there is one and the user
    -- gave an `expire_after_read`, has a modification time, succeeds. It returns a value
    -- exactly if the map is enabled and has an entry with that value under the key, which is
    -- not ignored, has neither expired nor been invalidated, and is met by no predicate
    -- registered at or after its last modification; whatever the user's function makes of the
    -- expiration, it leaves a consistent state, and the read that it records, if any, is of an
    -- entry paired with its queue nodes.
    pub do_get-IsConsistent :
        (s' : State K V) × (value : Option V) × (op : Option (ReadOp V)) × (do_get dec c v ignore_if
            expiry others s key hash now
          ≡ some (s', value, op))
        × ((x : V) → (value ≡ some x) ↔ Finds dec c v ignore_if s key now x)
        × IsConsistent P s'
        × IsRecordable op
    do_get-IsConsistent =
        let (s1, op, k, h1, p) = do_get_found in
        (
          s1,
          found_value dec c v ignore_if s key now,
          op,
          k,
          λ x. found_value_iff dec c v ignore_if s key now x,
          h1,
          p,
        )

  abbrev scanned_after_all : State K V → K → Instant → Instant → Option (ValueEntry V) → Option V
  scanned_after_all s key at now none = none
  scanned_after_all s key at now (some e) =
      if is_gone (record c { valid_after = some at }) v s key e now then none else some e.value

  modified_before :
      (info : EntryInfo K) (lm at now : Instant)
      → last_modified info ≡ some lm
      → lm < at
      → is_expired_entry_wo c.time_to_live (some at) info now ≡ true
  unfolding is_expired_entry_wo is_invalid_entry
  modified_before info lm at now m b = ground (arith, m, b)

  gone :
      (s : State K V) (key : K) (e : ValueEntry V) (lm at now : Instant)
      → last_modified (info_of s e) ≡ some lm
      → lm < at
      → is_gone (record c { valid_after = some at }) v s key e now ≡ true
  gone s key e lm at now m b = rw (modified_before (info_of s e) lm at now m b) (
      last_true (is_expired_by_per_entry_ttl (info_of s e) now)
        (is_expired_entry_ao c.time_to_idle (some at) (info_of s e) now)
        (is_invalidated_entry v s key e))
    where
      last_true : (x y z : Bool) → (x || true || y || z) ≡ true
      last_true false y z = refl
      last_true true y z = refl

  -- After invalidate_all, scanning_get returns nothing for a key whose entry was last modified
  -- before it, whatever the other settings are.
  pub scanning_get-invalidate_all :
      (s : State K V) (key : K) (e : ValueEntry V) (lm at now : Instant)
      → get dec key s.cache ≡ some e
      → last_modified (info_of s e) ≡ some lm
      → lm < at
      → scanning_get dec (invalidate_all c at) v s key now ≡ none
  unfolding scanning_get invalidate_all
  scanning_get-invalidate_all s key e lm at now g m b =
      ap (scanned_after_all s key at now) g ∙ rw (gone s key e lm at now m b) refl
