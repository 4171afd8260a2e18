-- ===== src/Client/Contents.antt =====
-- The contract of the cache that src/sync/cache.rs documents: a map that may lose entries. The
-- contents are what the clients have put under each key and not taken out again.
use mathlib.Core.Logic.{ite}
use moka.Base.{◌≡◌, ◌⊎◌, List, [], ◌∷◌, Bool, Option, none, some, if◌then◌else◌}
use moka.Concurrent.{ValueEntry}
use moka.Client.System.{Step, insert, invalidate, lookup}

abbrev pub Contents : Type 0 → Type 0 → Type 0
Contents K V = K → Option V

module _ {K V : Type 0} where
  -- The entry holds what the contents have under its key.
  abbrev pub Agrees : Contents K V → K → ValueEntry V → Type 0
  Agrees m key e = m key ≡ some e.value

  -- What a client may see: a lookup and a removal give what the contents have under the key, or
  -- nothing.
  abbrev pub IsAnswer : Contents K V → Step K V → Option V → Type 0
  IsAnswer m (invalidate key need_value now) value = (value ≡ none) ⊎ (value ≡ m key)
  IsAnswer m (lookup key hash now others) value = (value ≡ none) ⊎ (value ≡ m key)
  IsAnswer m x value = value ≡ none

  module _ (dec : Discrete K) where
    abbrev pub set_to : Contents K V → K → Option V → Contents K V
    set_to m key value j = ite (dec key j) value (m j)

    -- A disabled map takes no entry.
    abbrev pub contents_after : Bool → Contents K V → Step K V → Contents K V
    contents_after is_disabled m (insert x) =
        if is_disabled then m else set_to m x.key_hash.key (some x.value)
    contents_after is_disabled m (invalidate key need_value now) = set_to m key none
    contents_after is_disabled m x = m

    abbrev pub contents_at_end : Bool → Contents K V → List (Step K V) → Contents K V
    contents_at_end is_disabled m [] = m
    contents_at_end is_disabled m (x ∷ xs) =
        contents_at_end is_disabled (contents_after is_disabled m x) xs

    abbrev pub AreAnswers : Bool → Contents K V → List (Step K V) → List (Option V) → Type 0
    AreAnswers is_disabled m [] [] = Unit {0}
    AreAnswers is_disabled m [] (value ∷ values) = ⊥
    AreAnswers is_disabled m (x ∷ xs) [] = ⊥
    AreAnswers is_disabled m (x ∷ xs) (value ∷ values) =
        IsAnswer m x value × AreAnswers is_disabled (contents_after is_disabled m x) xs values
