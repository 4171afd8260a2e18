-- ===== src/Get/Found.antt =====
-- src/sync/base_cache.rs: which value a lookup finds.
use mathlib.Core.Option
use mathlib.Core.Option.{some-ne-none, some-injective, none-ne-some}
use moka.Get.Expired.{IsLive, is_gone, is_gone_iff, all_lem}
use moka.Base.{
  ◌↔◌, subst, ◌≡◌, refl, sym, ap, ◌∙◌, inl, inr, Bool, false, Option, none, some, Bool-cases,
  if◌then◌else◌,
}
use moka.Time.{Instant}
use moka.Concurrent.{ValueEntry}
use moka.Cache.{State, Config, get}
use moka.Invalidator.{Invalidator}
use moka.Get.{is_map_disabled, find_entry}

module _ {K V : Type 0} (dec : Discrete K) (c : Config) (v : Option (Invalidator K V)) where
  abbrev pub found_value : Option (V → Bool) → State K V → K → Instant → Option V
  found_value ignore_if s key now =
      if is_map_disabled c
      then none
      else Option.map (λ e. e.value) (find_entry dec c v ignore_if s key now)

  -- The map is enabled and has an entry with the value under the key, live and not ignored.
  abbrev pub Finds : Option (V → Bool) → State K V → K → Instant → V → Type 0
  Finds ignore_if s key now x =
      (is_map_disabled c ≡ false)
      × (e : ValueEntry V) × (get dec key s.cache ≡ some e)
      × ((ignores : V → Bool) → ignore_if ≡ some ignores → ignores e.value ≡ false)
      × IsLive c v s key e now
      × (e.value ≡ x)

  module _ (ignore_if : Option (V → Bool)) (s : State K V) (key : K) (now : Instant) (x : V) where
    abbrev is_ignored : ValueEntry V → Bool
    is_ignored e = elim ignore_if as (λ y. Bool) [ none ↦ false | some ignores ↦ ignores e.value ]

    abbrev chosen : Option (ValueEntry V) → Option (ValueEntry V)
    chosen none = none
    chosen (some e) =
        if is_ignored e then none else if is_gone c v s key e now then none else some e

    ChosenBy : Option (ValueEntry V) → Type 0
    ChosenBy r =
        (e : ValueEntry V) × (r ≡ some e)
        × (is_ignored e ≡ false)
        × (is_gone c v s key e now ≡ false)
        × (e.value ≡ x)

    chosen_iff :
        (r : Option (ValueEntry V)) → (Option.map (λ e. e.value) (chosen r) ≡ some x) ↔ ChosenBy r
    unfolding ChosenBy
    chosen_iff none = (λ k. absurd (none-ne-some x k), λ (e, g, a, b, q). absurd (none-ne-some e g))
    chosen_iff (some f) = (
      λ k. elim (Bool-cases (is_ignored f)) [
        | inl w ↦ absurd (none-ne-some x (sym (rw w refl) ∙ k))
        | inr w ↦ elim (Bool-cases (is_gone c v s key f now)) [
          | inl g ↦ absurd (none-ne-some x (sym (rw (w, g) refl) ∙ k))
          | inr g ↦ (f, refl, w, g, some-injective f.value x (sym (rw (w, g) refl) ∙ k))
        ]
      ],
      λ (e, g, a, b, q).
          subst (λ r. Option.map (λ y. y.value) (chosen r) ≡ some x) (sym g)
            (rw (a, b) (ap some q)),
    )

    ignored_lem :
        (e : ValueEntry V)
        → (is_ignored e ≡ false)
          ↔ ((ignores : V → Bool) → ignore_if ≡ some ignores → ignores e.value ≡ false)
    ignored_lem e = all_lem (λ ignores. ignores e.value) ignore_if

    pub found_value_iff : (found_value ignore_if s key now ≡ some x) ↔ Finds ignore_if s key now x
    unfolding find_entry ChosenBy
    found_value_iff =
        let (to, from) = chosen_iff (get dec key s.cache) in
        (
          λ k. elim (Bool-cases (is_map_disabled c)) [
            | inl d ↦ absurd (none-ne-some x (sym (rw d refl) ∙ k))
            | inr d ↦
                let (e, g, a, b, q) = to (sym (rw d refl) ∙ k) in
                (d, e, g, (ignored_lem e).0 a, (is_gone_iff c s key e now v).0 b, q)
          ],
          λ (d, e, g, a, l, q).
              rw d (from (e, g, (ignored_lem e).1 a, (is_gone_iff c s key e now v).1 l, q)),
        )
