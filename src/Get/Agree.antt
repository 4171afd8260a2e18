-- ===== src/Get/Agree.antt =====
-- src/sync/base_cache.rs: what the lookups have in common.
use mathlib.Core.Option
use mathlib.Core.Option.{some-ne-none, some-injective, none-ne-some}
use moka.Get.Expired.{is_gone}
use moka.Base.{
  ◌&&◌, ℕ, ◌≡◌, refl, sym, ap, ◌∙◌, inl, inr, List, Bool, true, false, not, ◌||◌, Option, none,
  some, ◌>>=◌, Bool-cases, Option-cases, if◌then◌else◌,
}
use moka.Time.{Instant}
use moka.Concurrent.{ValueEntry, ReadOp, hit, miss}
use moka.Cache.{State, Config, info_of, get, is_some}
use moka.Cache.Expiry.{is_expired_by_per_entry_ttl, is_expired_entry_ao, is_expired_entry_wo}
use moka.Invalidator.{Invalidator}
use moka.Get.{
  ExpireAfterRead, is_invalidated_entry, is_map_disabled, contains_key, scanning_get, find_entry,
  read_entry, do_get,
}

module _ {K V : Type 0} (dec : Discrete K) (c : Config) (v : Option (Invalidator K V)) where
  module _ (s : State K V) (key : K) (now : Instant) where
    -- The three lookups, for what the table gives.
    abbrev contains_after : Option (ValueEntry V) → Bool
    contains_after none = false
    contains_after (some e) =
        not (is_expired_by_per_entry_ttl (info_of s e) now)
        && not (is_expired_entry_wo c.time_to_live c.valid_after (info_of s e) now)
        && not (is_expired_entry_ao c.time_to_idle c.valid_after (info_of s e) now)
        && not (is_invalidated_entry v s key e)

    abbrev scanned_after : Option (ValueEntry V) → Option V
    scanned_after none = none
    scanned_after (some e) = if is_gone c v s key e now then none else some e.value

    abbrev found_after : Option (ValueEntry V) → Option (ValueEntry V)
    found_after none = none
    found_after (some e) = if is_gone c v s key e now then none else some e

    not_any : (w x y z : Bool) → (not w && not x && not y && not z) ≡ not (w || x || y || z)
    not_any true x y z = refl
    not_any false true y z = refl
    not_any false false true z = refl
    not_any false false false z = refl

    agree_after :
        (r : Option (ValueEntry V))
        → (contains_after r ≡ is_some (scanned_after r))
          × (Option.map (λ e. e.value) (found_after r) ≡ scanned_after r)
    agree_after none = (refl, refl)
    agree_after (some e) =
        let same =
          not_any (is_expired_by_per_entry_ttl (info_of s e) now)
            (is_expired_entry_wo c.time_to_live c.valid_after (info_of s e) now)
            (is_expired_entry_ao c.time_to_idle c.valid_after (info_of s e) now)
            (is_invalidated_entry v s key e) in
        elim (Bool-cases (is_gone c v s key e now)) [
          | inl g ↦ (same ∙ rw g refl, rw g refl)
          | inr g ↦ (same ∙ rw g refl, rw g refl)
        ]

    both_agree :
        (contains_key dec c v s key now ≡ is_some (scanning_get dec c v s key now))
        × (Option.map (λ e. e.value) (find_entry dec c v none s key now)
            ≡ scanning_get dec c v s key now)
    unfolding contains_key scanning_get find_entry
    both_agree = agree_after (get dec key s.cache)

    module _ (expiry : Option (ExpireAfterRead K V)) (others : List ℕ) (hash : ℕ) (s' : State K V)
        (value : Option V) (op : Option (ReadOp V)) where
      abbrev got_after : Option (ValueEntry V) → Option (State K V × Option V × Option (ReadOp V))
      got_after none = some (s, none, some (miss hash))
      got_after (some e) = do
        (s1, modified) ← read_entry dec c v expiry others s e now
        some (s1, some e.value, some (hit e modified))

      value_after :
          (r : Option (ValueEntry V))
          → got_after r ≡ some (s', value, op)
          → value ≡ Option.map (λ e. e.value) r
      value_after none k = cc
      value_after (some e) k = elim (Option-cases (read_entry dec c v expiry others s e now)) [
        | inl g ↦ absurd (some-ne-none (s', value, op) (sym k ∙ rw g refl))
        | inr (x, g) ↦
            ap (λ t. t.1)
              (some-injective (s', value, op) (x.0, some e.value, some (hit e x.1))
                (sym k ∙ rw g refl))
      ]

      -- On an enabled map, a read that ignores no value and succeeds, scanning_get and
      -- contains_key agree on what the key has.
      pub lookups_agree :
          is_map_disabled c ≡ false
          → do_get dec c v none expiry others s key hash now ≡ some (s', value, op)
          → (value ≡ scanning_get dec c v s key now)
            × (contains_key dec c v s key now ≡ is_some value)
      unfolding do_get
      lookups_agree d k =
          let (contained, found) = both_agree in
          let same =
            value_after (find_entry dec c v none s key now) (sym (rw d refl) ∙ k) ∙ found in
          (same, contained ∙ ap is_some (sym same))
