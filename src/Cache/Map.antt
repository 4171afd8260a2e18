-- ===== src/Cache/Map.antt =====
-- src/sync/base_cache.rs: `cht_remove_if_and_retire`, over the list of the map's entries.
use mathlib.Core.Logic.{ite}
use mathlib.Core.Option.{some-ne-none}
use moka.Base.{
  ◌≡◌, refl, ap, sym, ◌∙◌, ◌≢◌, ◌⊎◌, inl, inr, List, [], ◌∷◌, Bool, true, false, none, some, arith,
  Bool-cases, Option-cases,
}
use moka.EntryInfo.{retire}
use moka.Concurrent.{ValueEntry, set_info}
use moka.Cache.{State, get, erase, cht_remove_if_and_retire}

module _ {ℓ} {P A : Type ℓ} where
  pub ite-yes : (d : Dec P) (x y : A) → P → ite d x y ≡ x
  ite-yes (yes p) x y h = refl
  ite-yes (no n) x y h = absurd (n h)

  pub ite-no : (d : Dec P) (x y : A) → (P → ⊥) → ite d x y ≡ y
  ite-no (yes p) x y h = absurd (h p)
  ite-no (no n) x y h = refl

module _ {K V : Type 0} (dec : Discrete K) where
  pub get-erase_self : (k : K) (m : List (K × ValueEntry V)) → get dec k (erase dec k m) ≡ none
  unfolding get erase
  get-erase_self k [] = refl
  get-erase_self k ((j, e) ∷ m) = elim (dec j k) [
    | yes p ↦ rw (ite-yes (dec j k) (erase dec k m) ((j, e) ∷ erase dec k m) p) (get-erase_self k m)
    | no n ↦
        rw (ite-no (dec j k) (erase dec k m) ((j, e) ∷ erase dec k m) n)
          (ite-no (dec j k) (some e) (get dec k (erase dec k m)) n ∙ get-erase_self k m)
  ]

  pub get-erase_ne :
      (k j : K) (m : List (K × ValueEntry V)) → j ≢ k → get dec j (erase dec k m) ≡ get dec j m
  unfolding get erase
  get-erase_ne k j [] n = refl
  get-erase_ne k j ((i, e) ∷ m) n = elim (dec i k) [
    | yes p ↦
        rw (ite-yes (dec i k) (erase dec k m) ((i, e) ∷ erase dec k m) p) (
          get-erase_ne k j m n ∙ sym (ite-no (dec i j) (some e) (get dec j m) (λ q. n (sym q ∙ p))))
    | no q ↦
        rw (ite-no (dec i k) (erase dec k m) ((i, e) ∷ erase dec k m) q)
          (ap (ite (dec i j) (some e)) (get-erase_ne k j m n))
  ]

  pub erase-absent : (k : K) (m : List (K × ValueEntry V)) → get dec k m ≡ none → erase dec k m ≡ m
  unfolding get erase
  erase-absent k [] h = refl
  erase-absent k ((j, e) ∷ m) h = elim (dec j k) [
    | yes p ↦ absurd (some-ne-none e (sym (ite-yes (dec j k) (some e) (get dec k m) p) ∙ h))
    | no n ↦
        ite-no (dec j k) (erase dec k m) ((j, e) ∷ erase dec k m) n
        ∙ ap (λ r. (j, e) ∷ r)
            (erase-absent k m (sym (ite-no (dec j k) (some e) (get dec k m) n) ∙ h))
  ]

  -- The entry of the key is kept, as there is none or the condition fails on it: nothing changes.
  abbrev pub IsKept : State K V → K → (ValueEntry V → Bool) → State K V → Type 0
  IsKept s k condition s' =
      ((get dec k s.cache ≡ none)
        ⊎ ((e : ValueEntry V) × (get dec k s.cache ≡ some e) × (condition e ≡ false)))
      × (s' ≡ s)

  -- The entry of the key met the condition, is out of the map, and is retired.
  abbrev pub IsRemoved : State K V → K → (ValueEntry V → Bool) → State K V → ValueEntry V → Type 0
  IsRemoved s k condition s' e =
      (get dec k s.cache ≡ some e)
      × (condition e ≡ true)
      × (get dec k s'.cache ≡ none)
      × ((s'.shared.infos e.info).is_retired ≡ true)

  pub remove_absent :
      (s : State K V) (k : K) (condition : ValueEntry V → Bool)
      → get dec k s.cache ≡ none
      → cht_remove_if_and_retire dec s k condition ≡ (s, none)
  unfolding cht_remove_if_and_retire
  remove_absent s k condition h = rw (h, cht_remove_if_and_retire) refl

  remove_refused :
      (s : State K V) (k : K) (condition : ValueEntry V → Bool) (e : ValueEntry V)
      → get dec k s.cache ≡ some e
      → condition e ≡ false
      → cht_remove_if_and_retire dec s k condition ≡ (s, none)
  unfolding cht_remove_if_and_retire
  remove_refused s k condition e h c = rw (h, c, cht_remove_if_and_retire) refl

  -- The state after the entry of a key was taken out and retired.
  abbrev pub taken_out : State K V → K → ValueEntry V → State K V
  taken_out s k e = record s {
    cache = erase dec k s.cache;
    shared = set_info s.shared e.info (retire (s.shared.infos e.info));
  }

  pub remove_done :
      (s : State K V) (k : K) (condition : ValueEntry V → Bool) (e : ValueEntry V)
      → get dec k s.cache ≡ some e
      → condition e ≡ true
      → cht_remove_if_and_retire dec s k condition ≡ (taken_out s k e, some e)
  unfolding cht_remove_if_and_retire
  remove_done s k condition e h c = rw (h, c, cht_remove_if_and_retire) refl

  pub remove_cases :
      (s : State K V) (k : K) (condition : ValueEntry V → Bool)
      → (cht_remove_if_and_retire dec s k condition ≡ (s, none))
        ⊎ ((e : ValueEntry V) × (get dec k s.cache ≡ some e)
            × (cht_remove_if_and_retire dec s k condition ≡ (taken_out s k e, some e)))
  remove_cases s k condition = elim (Option-cases (get dec k s.cache)) [
    | inl h ↦ inl (remove_absent s k condition h)
    | inr (e, h) ↦ elim (Bool-cases (condition e)) [
      | inl c ↦ inr (e, h, remove_done s k condition e h c)
      | inr c ↦ inl (remove_refused s k condition e h c)
    ]
  ]

  retired_now :
      (s : State K V) (e : ValueEntry V)
      → ((set_info s.shared e.info (retire (s.shared.infos e.info))).infos e.info).is_retired ≡ true
  retired_now s e = ground arith

  -- The two ends of `cht_remove_if_and_retire`: the entry of the key, if there is one, fails
  -- the condition and is kept, and the state is as it was; or the entry met the condition, has
  -- left the map and is retired. Every other key has the entry that it had.
  pub cht_remove_if_and_retire_lem :
      (s : State K V) (k j : K) (condition : ValueEntry V → Bool)
      → j ≢ k
      → let (s', result) = cht_remove_if_and_retire dec s k condition in
        (((result ≡ none) × IsKept s k condition s')
          ⊎ ((e : ValueEntry V) × (result ≡ some e) × IsRemoved s k condition s' e))
        × (get dec j s'.cache ≡ get dec j s.cache)
  cht_remove_if_and_retire_lem s k j condition n = elim (Option-cases (get dec k s.cache)) [
    | inl h ↦ rw (remove_absent s k condition h) (inl (refl, (inl h, refl)), refl)
    | inr (e, h) ↦ elim (Bool-cases (condition e)) [
      | inl c ↦ rw (remove_done s k condition e h c) (
        inr (e, refl, (h, c, get-erase_self k s.cache, retired_now s e)),
        get-erase_ne k j s.cache n,
      )
      | inr c ↦ rw (remove_refused s k condition e h c) (inl (refl, (inr (e, h, c), refl)), refl)
    ]
  ]
