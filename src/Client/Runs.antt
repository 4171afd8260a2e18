-- ===== src/Client/Runs.antt =====
-- src/sync/base_cache.rs and src/sync/cache.rs: whole runs of the cache against the contents.
use moka.Base.{◌≡◌, refl, subst, List, [], ◌∷◌, Bool, Option, some}
use moka.Invalidator.{Invalidator}
use moka.Get.{is_map_disabled}
use moka.Client.{Expiry}
use moka.Client.System.{System, Step, run}
use moka.Client.Contents.{Contents, contents_after, contents_at_end, AreAnswers}
use moka.Client.Refines.{IsSound, AllLegal, LegalAfter}
use moka.Client.Steps.{take_step-Ends}

module _ {K V : Type 0} (dec : Discrete K) (expiry : Option (Expiry K V))
    (invalidator : Option (Invalidator K V)) where
  abbrev RunEnds : Bool → Contents K V → System K V → List (Step K V) → Type 0
  RunEnds is_disabled m y xs =
      (y1 : System K V) × (values : List (Option V)) × (run dec expiry invalidator y xs
        ≡ some (y1, values))
      × IsSound (contents_at_end dec is_disabled m xs) y1
      × AreAnswers dec is_disabled m xs values

  -- Any run of a cache in order succeeds, whatever the order in which insertions, removals,
  -- lookups, `invalidate_all`, the sending of messages and the steps of the maintenance follow
  -- each other, if each step is legal where the run takes it: an insertion is given an address
  -- that no queue node belongs to, and where the user's `Expiry` is to be called for a read,
  -- the entry has a modification time. Every lookup and every removal gives nothing or what the
  -- contents have under the key, that is the value inserted last and not removed since (a
  -- disabled map takes no insertion); the state at the end is in order, its map holds nothing
  -- but such values, and no message is of an entry without its queue nodes.
  pub run-AreAnswers :
      (m : Contents K V) (y : System K V) (xs : List (Step K V))
      → IsSound m y
      → AllLegal dec expiry invalidator y xs
      → (y1 : System K V) × (values : List (Option V)) × (run dec expiry invalidator y xs
          ≡ some (y1, values))
        × IsSound (contents_at_end dec (is_map_disabled y.config) m xs) y1
        × AreAnswers dec (is_map_disabled y.config) m xs values
  unfolding run
  run-AreAnswers m y [] h l = (y, [], refl, h, tt)
  run-AreAnswers m y (x ∷ xs) h l =
      let (y1, value, k, h1, a, g) = take_step-Ends dec expiry invalidator m y h x l.0 in
      let m1 = contents_after dec (is_map_disabled y.config) m x in
      let l1 =
        subst (LegalAfter dec expiry invalidator (λ z. AllLegal dec expiry invalidator z xs)) k
          l.1 in
      let (y2, values, k2, h2, as2) =
        subst (λ b. RunEnds b m1 y1 xs) g (run-AreAnswers m1 y1 xs h1 l1) in
      (y2, value ∷ values, rw k (rw k2 refl), h2, (a, as2))
