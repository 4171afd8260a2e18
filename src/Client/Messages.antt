-- ===== src/Client/Messages.antt =====
-- src/sync/base_cache.rs and src/sync/cache.rs: the messages in the channels and those that wait.
use moka.Base.{
  ℕ, zero, suc, ◌≡◌, refl, inl, inr, List, [], ◌∷◌, ◌++◌, Option, none, some, All, Bool-cases, ltb,
  length,
}
use moka.Concurrent.{ReadOp, WriteOp}
use moka.Cache.Invariant.Moves.{IsReadable, AllReadable}
use moka.Cache.Invariant.Handle.{IsWritable, AllWritable}
use moka.Get.Live.{IsRecordable}
use moka.Client.System.{
  System, take, drop, pick, picked_after, scheduled, read_log_ch_size, write_log_ch_size,
  record_read_op, schedule_write_op,
}

module _ {A : Type 0} (P : A → Type 0) where
  pub All-take : (n : ℕ) (xs : List A) → All P xs → All P (take n xs)
  All-take zero xs h = tt
  All-take (suc n) [] h = tt
  All-take (suc n) (x ∷ xs) h = (h.0, All-take n xs h.1)

  pub All-drop : (n : ℕ) (xs : List A) → All P xs → All P (drop n xs)
  All-drop zero xs h = h
  All-drop (suc n) [] h = tt
  All-drop (suc n) (x ∷ xs) h = All-drop n xs h.1

  pub All-append : (xs ys : List A) → All P xs → All P ys → All P (xs ++ ys)
  All-append [] ys h g = g
  All-append (x ∷ xs) ys h g = (h.0, All-append xs ys h.1 g)

  abbrev IsPicked : Option (A × List A) → Type 0
  IsPicked none = Unit {0}
  IsPicked (some (x, xs)) = P x × All P xs

  picked_lem : (x : A) → P x → (r : Option (A × List A)) → IsPicked r → IsPicked (picked_after x r)
  picked_lem x h none g = tt
  picked_lem x h (some (y, ys)) g = (g.0, (h, g.1))

  pick_lem : (n : ℕ) (xs : List A) → All P xs → IsPicked (pick n xs)
  pick_lem zero [] h = tt
  pick_lem (suc n) [] h = tt
  pick_lem zero (x ∷ xs) h = h
  pick_lem (suc n) (x ∷ xs) h = picked_lem x h.0 (pick n xs) (pick_lem n xs h.1)

module _ {V : Type 0} where
  pub record_read_op-AllReadable :
      (ch : List (ReadOp V)) (op : Option (ReadOp V))
      → AllReadable ch
      → IsRecordable op
      → AllReadable (record_read_op ch op)
  unfolding record_read_op
  record_read_op-AllReadable ch none h p = h
  record_read_op-AllReadable ch (some op) h p =
      elim (Bool-cases (ltb (length ch) read_log_ch_size)) [
        | inl b ↦ rw b (All-append IsReadable ch (op ∷ []) h (p, tt))
        | inr b ↦ rw b h
      ]

module _ {K V : Type 0} where
  -- The messages for the policies are of entries that are paired.
  abbrev pub HasWritable : System K V → Type 0
  HasWritable y = AllWritable y.write_op_ch × AllWritable y.waiting

  -- A message stays in one of the two places.
  pub schedule_write_op-HasWritable :
      (y : System K V) (n : ℕ) → HasWritable y → HasWritable (schedule_write_op y n)
  unfolding schedule_write_op
  schedule_write_op-HasWritable y n (h, w) =
      go (pick n y.waiting) (pick_lem IsWritable n y.waiting w)
    where
      go :
          (r : Option (WriteOp K V × List (WriteOp K V)))
          → IsPicked IsWritable r
          → HasWritable (scheduled y r)
      go none p = (h, w)
      go (some (op, others)) p = elim (Bool-cases (ltb (length y.write_op_ch) write_log_ch_size)) [
        | inl b ↦ rw b (All-append IsWritable y.write_op_ch (op ∷ []) h (p.0, tt), p.1)
        | inr b ↦ rw b (h, w)
      ]

  -- The sending leaves the rest as it was.
  pub schedule_write_op-SameRest :
      (y : System K V) (n : ℕ)
      → let y1 = schedule_write_op y n in
        (y1.state ≡ y.state) × (y1.read_op_ch ≡ y.read_op_ch) × (y1.config ≡ y.config)
  unfolding schedule_write_op
  schedule_write_op-SameRest y n = go (pick n y.waiting)
    where
      go :
          (r : Option (WriteOp K V × List (WriteOp K V)))
          → let y1 = scheduled y r in
            (y1.state ≡ y.state) × (y1.read_op_ch ≡ y.read_op_ch) × (y1.config ≡ y.config)
      go none = (refl, refl, refl)
      go (some (op, others)) = elim (Bool-cases (ltb (length y.write_op_ch) write_log_ch_size)) [
        | inl b ↦ rw b (refl, refl, refl)
        | inr b ↦ rw b (refl, refl, refl)
      ]
