-- ===== src/Invalidator/Keeps.antt =====
-- src/sync/invalidator.rs: the entries that no predicate meets, over the scan.
use moka.Base.{
  ◌≡◌, ◌≢◌, refl, sym, ap, subst, ◌∙◌, inl, inr, List, [], ◌∷◌, Bool, false, ◌==◌, Option, none,
  some, arith, Bool-cases, if◌then◌else◌,
}
use moka.Time.{Instant}
use moka.EntryInfo.{EntryInfo, last_modified, retire}
use moka.Concurrent.{ValueEntry}
use moka.Cache.{State, Config, get, info_of}
use moka.Cache.Map.{taken_out, remove_cases, get-erase_ne}
use moka.Invalidator.Unmet.{IsUnmet, do_apply_predicates_iff}
use moka.Invalidator.{
  KeyDateLite, Predicate, do_apply_predicates, apply, invalidate, scan, notify_single_removal,
  is_modified_at,
}

module _ {K V : Type 0} (dec : Discrete K) (predicates : List (Predicate K V)) (k : K)
    (e : ValueEntry V) where
  -- The entry is in the map under the key, and no predicate meets it.
  pub record IsSpared (s : State K V) : Type 0 where
    pub present : get dec k s.cache ≡ some e
    pub unmet :
        (lm : Instant)
        → last_modified (info_of s e) ≡ some lm
        → do_apply_predicates predicates k e.value lm ≡ false

module _ {K V : Type 0} (dec : Discrete K) (c : Config) (predicates : List (Predicate K V)) (k : K)
    (e : ValueEntry V) where
  not_applied :
      (s : State K V) (ts : Instant)
      → IsSpared dec predicates k e s
      → apply dec c predicates s k ts ≡ false
  unfolding apply
  not_applied s ts h = ap at_entry h.present ∙ go (last_modified (info_of s e)) refl
    where
      at_entry : Option (ValueEntry V) → Bool
      at_entry none = false
      at_entry (some e) =
          if is_modified_at s ts e then do_apply_predicates predicates k e.value ts else false

      test : Option Instant → Bool
      test lm =
          if elim lm as (λ x. Bool) [ none ↦ false | some t ↦ t == ts ]
          then do_apply_predicates predicates k e.value ts
          else false

      go : (lm : Option Instant) → last_modified (info_of s e) ≡ lm → at_entry (some e) ≡ false
      go none m = ap test m
      go (some lm) m = elim (Bool-cases (lm == ts)) [
        | inr w ↦ ap test m ∙ rw w refl
        | inl w ↦
            let same : lm ≡ ts = ground (arith, w) in
            ap test m ∙ rw w (h.unmet ts (m ∙ ap some same))
      ]

  retire-last_modified : (i : EntryInfo K) → last_modified (retire i) ≡ last_modified i
  retire-last_modified i = refl

  taken_out-last_modified :
      (s : State K V) (j : K) (f : ValueEntry V)
      → last_modified (info_of (taken_out dec s j f) e) ≡ last_modified (info_of s e)
  taken_out-last_modified s j f = elim (Bool-cases (e.info == f.info)) [
    | inl w ↦
        let same : f.info ≡ e.info = ground (arith, w) in
        rw w (
          retire-last_modified (s.shared.infos f.info)
          ∙ ap (λ i. last_modified (s.shared.infos i)) same)
    | inr w ↦ rw w refl
  ]

  taken_out-IsSpared :
      (s : State K V) (j : K) (f : ValueEntry V)
      → (k ≢ j)
      → IsSpared dec predicates k e s
      → IsSpared dec predicates k e (taken_out dec s j f)
  taken_out-IsSpared s j f n h = record {
    present = get-erase_ne dec j k s.cache n ∙ h.present;
    unmet = λ lm m. h.unmet lm (sym (taken_out-last_modified s j f) ∙ m);
  }

  notified-IsSpared :
      (s : State K V) (j : K) (removed : Option (ValueEntry V))
      → IsSpared dec predicates k e s
      → IsSpared dec predicates k e (notify_single_removal c s j removed)
  notified-IsSpared s j none h = h
  notified-IsSpared s j (some f) h = elim (Bool-cases (c.has_notifier)) [
    | inl w ↦ rw w (record { present = h.present; unmet = h.unmet })
    | inr w ↦ rw w h
  ]

  invalidate-IsSpared :
      (s : State K V) (j : K) (ts : Instant)
      → (k ≢ j)
      → IsSpared dec predicates k e s
      → IsSpared dec predicates k e ((invalidate dec c s j ts).0)
  unfolding invalidate
  invalidate-IsSpared s j ts n h = elim (remove_cases dec s j (is_modified_at s ts)) [
    | inl w ↦ subst (λ r. IsSpared dec predicates k e (notify_single_removal c r.0 j r.1)) (sym w) h
    | inr (f, g, w) ↦
        subst (λ r. IsSpared dec predicates k e (notify_single_removal c r.0 j r.1)) (sym w)
          (notified-IsSpared (taken_out dec s j f) j (some f) (taken_out-IsSpared s j f n h))
  ]

  candidate-IsSpared :
      (s : State K V) (j : K) (ts : Instant)
      → IsSpared dec predicates k e s
      → IsSpared dec predicates k e
          ((if apply dec c predicates s j ts then invalidate dec c s j ts else (s, none)).0)
  candidate-IsSpared s j ts h = elim (dec k j) [
    | yes p ↦ rw (sym (ap (λ x. apply dec c predicates s x ts) p) ∙ not_applied s ts h) h
    | no n ↦ elim (Bool-cases (apply dec c predicates s j ts)) [
      | inl w ↦ rw w (invalidate-IsSpared s j ts n h)
      | inr w ↦ rw w h
    ]
  ]

  scan-IsSpared :
      (s : State K V) (candidates : List (KeyDateLite K))
      → IsSpared dec predicates k e s
      → IsSpared dec predicates k e ((scan dec c predicates s candidates).0)
  unfolding scan
  scan-IsSpared s [] h = h
  scan-IsSpared s (candidate ∷ candidates) h =
      scan-IsSpared
        ((if apply dec c predicates s candidate.key candidate.timestamp
          then invalidate dec c s candidate.key candidate.timestamp
          else (s, none)).0)
        candidates (candidate-IsSpared s candidate.key candidate.timestamp h)

module _ {K V : Type 0} (dec : Discrete K) (c : Config) where
  -- The scan of the predicates over any candidates keeps an entry of the map in its place if no
  -- predicate that is registered at or after its last modification holds of its key and value.
  pub get-scan :
      (predicates : List (Predicate K V)) (s : State K V) (candidates : List (KeyDateLite K))
      (k : K) (e : ValueEntry V)
      → get dec k s.cache ≡ some e
      → ((lm : Instant) → last_modified (info_of s e) ≡ some lm → IsUnmet predicates k e.value lm)
      → get dec k ((scan dec c predicates s candidates).0).cache ≡ some e
  get-scan predicates s candidates k e g u =
      (scan-IsSpared dec c predicates k e s candidates (record {
        present = g;
        unmet = λ lm m. (do_apply_predicates_iff predicates k e.value lm).1 (u lm m);
      })).present
