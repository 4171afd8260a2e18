-- ===== src/Client/Refines.antt =====
-- src/sync/base_cache.rs and src/sync/cache.rs: the cache against the contents, over the calls of
-- the clients.
use moka.Base.{
  ℕ, ◌≡◌, ◌≢◌, refl, sym, ◌∙◌, inl, inr, List, [], ◌∷◌, ◌++◌, Bool, Option, none, some, Bool-cases,
}
use moka.Time.{Instant}
use moka.EntryInfo.{last_modified}
use moka.Concurrent.{ValueEntry, WriteOp}
use moka.Cache.{State, get, info_of}
use moka.Cache.Invariant.{IsConsistent, get-AllPaired}
use moka.Cache.Invariant.Moves.{AllReadable}
use moka.Cache.Invariant.Handle.{AllWritable}
use moka.Invalidator.{Invalidator}
use moka.Get.{is_map_disabled}
use moka.Get.Found.{found_value}
use moka.Get.Live.{found_value_cases, do_get_found}
use moka.Client.{Expiry, Insertion, insert_with_hash, do_insert_with_hash, invalidate_with_hash}
use moka.Client.System.{
  System, Step, insert, invalidate, lookup, to_list, record_read_op, expire_after_read, take_step,
}
use moka.Client.Contents.{Contents, Agrees, IsAnswer, set_to, contents_after}
use moka.Client.Insert.{IsFree, do_insert_with_hash-IsInserted}
use moka.Client.Invalidate.{IsSendable, invalidate_with_hash-IsInvalidated}
use moka.Client.Messages.{record_read_op-AllReadable}

module _ {K V : Type 0} where
  -- The state is in order, its map agrees with the contents, and all messages are of entries that
  -- are paired with their queue nodes.
  pub record IsSound (m : Contents K V) (y : System K V) : Type 0 where
    pub state_sound : IsConsistent (Agrees m) y.state
    pub reads_sound : AllReadable y.read_op_ch
    pub writes_sound : AllWritable y.write_op_ch
    pub waiting_sound : AllWritable y.waiting

module _ {K V : Type 0} (dec : Discrete K) (expiry : Option (Expiry K V))
    (invalidator : Option (Invalidator K V)) where
  -- The allocator gives `insert` a free address; a lookup for which the user's `Expiry` is to be
  -- called meets an entry with a modification time.
  abbrev pub IsLegal : System K V → Step K V → Type 0
  IsLegal y (insert x) = IsFree y.state x.addr
  IsLegal y (lookup key hash now others) =
      expire_after_read expiry ≢ none
      → (e : ValueEntry V) → get dec key y.state.cache ≡ some e
      → last_modified (info_of y.state e) ≢ none
  IsLegal y x = Unit {0}

  abbrev pub LegalAfter : (System K V → Type 0) → Option (System K V × Option V) → Type 0
  LegalAfter legal none = Unit {0}
  LegalAfter legal (some (y, value)) = legal y

  -- Each step is legal where the run takes it.
  abbrev pub AllLegal : System K V → List (Step K V) → Type 0
  AllLegal y [] = Unit {0}
  AllLegal y (x ∷ xs) =
      IsLegal y x × LegalAfter (λ y1. AllLegal y1 xs) (take_step dec expiry invalidator y x)

  abbrev pub IsSame : System K V → System K V → Type 0
  IsSame y y1 = is_map_disabled y1.config ≡ is_map_disabled y.config

  abbrev pub Ends : Contents K V → System K V → Step K V → Type 0
  Ends m y x =
      (y1 : System K V) × (value : Option V) × (take_step dec expiry invalidator y x
        ≡ some (y1, value))
      × IsSound (contents_after dec (is_map_disabled y.config) m x) y1
      × IsAnswer m x value
      × IsSame y y1

  module _ (m : Contents K V) (y : System K V) (h : IsSound m y) where
    with_waiting :
        (s : State K V) (op : Option (WriteOp K V)) (m1 : Contents K V)
        → IsConsistent (Agrees m1) s
        → IsSendable op
        → IsSound m1 (record y { state = s; waiting = to_list op ++ y.waiting })
    with_waiting s op m1 k p = record {
      state_sound = k;
      reads_sound = h.reads_sound;
      writes_sound = h.writes_sound;
      waiting_sound = go op p;
    }
      where
        go : (op : Option (WriteOp K V)) → IsSendable op → AllWritable (to_list op ++ y.waiting)
        go none q = h.waiting_sound
        go (some op) q = (q, h.waiting_sound)

    pub insert-Ends : (x : Insertion K V) → IsLegal y (insert x) → Ends m y (insert x)
    unfolding take_step insert_with_hash
    insert-Ends x free = elim (Bool-cases (is_map_disabled y.config)) [
      | inl d ↦ (
        record y { state = y.state; waiting = to_list none ++ y.waiting },
        none,
        rw d refl,
        rw d (with_waiting y.state none m h.state_sound tt),
        refl,
        refl,
      )
      | inr d ↦
          let (s1, op) = do_insert_with_hash y.config expiry dec y.state x in
          let (k, p) =
            do_insert_with_hash-IsInserted dec y.config expiry m y.state x h.state_sound free in
          (
            record y { state = s1; waiting = op ∷ y.waiting },
            none,
            rw d refl,
            rw d (with_waiting s1 (some op) (set_to dec m x.key_hash.key (some x.value)) k p),
            refl,
            refl,
          )
    ]

    pub invalidate-Ends :
        (key : K) (need_value : Bool) (now : Instant) → Ends m y (invalidate key need_value now)
    unfolding take_step
    invalidate-Ends key need_value now =
        let (s1, op, value) = invalidate_with_hash dec y.config y.state key need_value now in
        let (k, p, a) =
          invalidate_with_hash-IsInvalidated dec y.config m y.state key need_value now
            h.state_sound in
        (
          record y { state = s1; waiting = to_list op ++ y.waiting },
          value,
          refl,
          with_waiting s1 op (set_to dec m key none) k p,
          a,
          refl,
        )

    pub lookup-Ends :
        (key : K) (hash : ℕ) (now : Instant) (others : List ℕ)
        → IsLegal y (lookup key hash now others)
        → Ends m y (lookup key hash now others)
    unfolding take_step
    lookup-Ends key hash now others set =
        let (s1, op, k, h1, p) =
          do_get_found dec y.config invalidator none (expire_after_read expiry) others y.state key
            hash now h.state_sound set in
        (
          record y { state = s1; read_op_ch = record_read_op y.read_op_ch op },
          found_value dec y.config invalidator none y.state key now,
          rw k refl,
          record {
            state_sound = h1;
            reads_sound = record_read_op-AllReadable y.read_op_ch op h.reads_sound p;
            writes_sound = h.writes_sound;
            waiting_sound = h.waiting_sound;
          },
          elim (found_value_cases dec y.config invalidator none y.state key now) [
            | inl n ↦ inl n
            | inr (e, g, f) ↦ inr (
                f
                ∙ sym (get-AllPaired dec (Agrees m) key y.state.cache e (h.state_sound.paired) g).1)
          ],
          refl,
        )
