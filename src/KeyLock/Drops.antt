-- ===== src/KeyLock/Drops.antt =====
-- src/sync/key_lock.rs: the steps of the drop of a key lock.
use mathlib.Core.Option.{some-injective, none-ne-some}
use moka.Base.{
  ℕ, suc, ◌+◌, ◌-◌, ◌==◌, ◌≡◌, ◌≢◌, refl, ap, subst, sym, ◌∙◌, inl, inr, List, [], ◌∷◌, ◌++◌,
  Option, none, some, All, leb, arith, ℕ_discrete, if◌then◌else◌, Bool-cases,
}
use moka.Concurrent.{update}
use moka.KeyLock.{
  DropPhase, in_use, removing, releasing, KeyLock, KeyLockMap, set_lock, remove_if_last, drop_lock,
}
use moka.KeyLock.Shared.{holders, Until, IsHeld, IsShared, set_same, set_other}

module _ {A : Type 0} (P : A → Type 0) (x y : A) where
  -- Another element in the place of one.
  All-replace : (xs ys : List A) → (P x → P y) → All P (xs ++ (x ∷ ys)) → All P (xs ++ (y ∷ ys))
  All-replace [] ys f h = (f h.0, h.1)
  All-replace (z ∷ xs) ys f h = (h.0, All-replace xs ys f h.1)

module _ {A : Type 0} (P : A → Type 0) (x : A) where
  All-split : (xs ys : List A) → All P (xs ++ (x ∷ ys)) → P x × All P (xs ++ ys)
  All-split [] ys h = h
  All-split (y ∷ xs) ys h = let (a, b) = All-split xs ys h.1 in (a, (h.0, b))

  All-join : (xs ys : List A) → P x → All P (xs ++ ys) → All P (xs ++ (x ∷ ys))
  All-join [] ys a h = (a, h)
  All-join (y ∷ xs) ys a h = (h.0, All-join xs ys a h.1)

module _ {K : Type 0} where
  holders-split :
      (a : ℕ) (xs : List (KeyLock K)) (l : KeyLock K) (ys : List (KeyLock K))
      → holders a (xs ++ (l ∷ ys)) ≡ (if l.lock == a then 1 else 0) + holders a (xs ++ ys)
  holders-split a [] l ys = refl
  holders-split a (x ∷ xs) l ys = omega (arith, holders-split a xs l ys)

  -- A map that differs in the key of a mutex which none of the key locks holds.
  unheld :
      (locks table : K → Option ℕ) (key : K) (a : ℕ) (ls : List (KeyLock K))
      → locks key ≡ some a
      → ((j : K) → key ≢ j → table j ≡ locks j)
      → holders a ls ≡ 0
      → All (IsHeld locks) ls
      → All (IsHeld table) ls
  unheld locks table key a [] t f z h = tt
  unheld locks table key a (l ∷ ls) t f z h =
      (own l.phase h.0, unheld locks table key a ls t f (omega (arith, z)) h.1)
    where
      own :
          (x : DropPhase)
          → Until x (locks l.key ≡ some l.lock)
          → Until x (table l.key ≡ some l.lock)
      own releasing u = tt
      own in_use u =
          f l.key (λ q. other (some-injective l.lock a (sym u ∙ ap locks (sym q) ∙ t))) ∙ u
        where
          other : l.lock ≡ a → ⊥
          other q = ground (arith, z, q)
      own removing u =
          f l.key (λ q. other (some-injective l.lock a (sym u ∙ ap locks (sym q) ∙ t))) ∙ u
        where
          other : l.lock ≡ a → ⊥
          other q = ground (arith, z, q)

module _ {K : Type 0} (dec : Discrete K) (p : KeyLockMap K) (h : IsShared p) (key : K) (lock : ℕ)
    (before after : List (KeyLock K)) where
  abbrev in_phase : DropPhase → KeyLock K
  in_phase x = record { key = key; lock = lock; phase = x }

  abbrev put : DropPhase → List (KeyLock K)
  put x = before ++ (in_phase x ∷ after)

  module _ (x : DropPhase) (here : p.alive ≡ put x) where
    put-IsHeld : All (IsHeld p.locks) (put x)
    put-IsHeld = subst (All (IsHeld p.locks)) here h.held

    holders_here :
        (a : ℕ) → holders a p.alive ≡ (if lock == a then 1 else 0) + holders a (before ++ after)
    holders_here a = ap (holders a) here ∙ holders-split a before (in_phase x) after

    holders-put : (y : DropPhase) (a : ℕ) → holders a (put y) ≡ holders a p.alive
    holders-put y a = holders-split a before (in_phase y) after ∙ sym (holders_here a)

    -- Another phase, in which no more is asked of the map.
    step_lem :
        (y : DropPhase)
        → (IsHeld p.locks (in_phase x) → IsHeld p.locks (in_phase y))
        → IsShared (record p { alive = put y })
    step_lem y f = record {
      held = All-replace (IsHeld p.locks) (in_phase x) (in_phase y) before after f put-IsHeld;
      one_key = h.one_key;
      exact = λ i a t. h.exact i a t ∙ ap suc (sym (holders-put y a));
    }

    release_lem :
        IsShared
          (record p { counts = update p.counts lock (p.counts lock - 1); alive = before ++ after })
    release_lem = record {
      held = (All-split (IsHeld p.locks) (in_phase x) before after put-IsHeld).1;
      one_key = h.one_key;
      exact = λ i a t.
          let c = h.exact i a t in
          let z = holders_here a in
          elim (ℕ_discrete a lock) [
            | yes q ↦
                subst
                  (λ b.
                    update p.counts lock (p.counts lock - 1) b ≡ suc (holders b (before ++ after)))
                  (sym q)
                  (let cl = subst (λ b. p.counts b ≡ suc (holders b p.alive)) q c in
                    let zl = holders_here lock in ground (arith, cl, zl))
            | no d ↦ ground (arith, c, z, d)
          ];
    }

  module _ (here : p.alive ≡ put removing) where
    own_held : p.locks key ≡ some lock
    own_held =
        (All-split (IsHeld p.locks) (in_phase removing) before after (put-IsHeld removing here)).0

    abbrev table : K → Option ℕ
    table = set_lock dec p.locks key none

    table_lem : (i : K) (a : ℕ) → table i ≡ some a → (key ≢ i) × (p.locks i ≡ some a)
    table_lem i a t = elim (dec key i) [
      | yes q ↦ absurd (
          none-ne-some a
            (sym (set_same dec p h key none) ∙ subst (λ j. table j ≡ some a) (sym q) t))
      | no d ↦ (d, sym (set_other dec p h key none i d) ∙ t)
    ]

    -- The `remove_if` of the last holder.
    removed_lem :
        holders lock (before ++ after) ≡ 0
        → IsShared (record p {
          locks = table;
          counts = update p.counts lock (p.counts lock - 1);
          alive = put releasing;
        })
    removed_lem last = record {
      held = All-join (IsHeld table) (in_phase releasing) before after tt (
          unheld p.locks table key lock (before ++ after) own_held (set_other dec p h key none) last
            (All-split (IsHeld p.locks) (in_phase removing) before after
              (put-IsHeld removing here)).1);
      one_key = λ i j a t u. h.one_key i j a (table_lem i a t).1 (table_lem j a u).1;
      exact = λ i a t.
          let (d, e) = table_lem i a t in
          let c = h.exact i a e in
          let z = holders-put removing here releasing a in
          let ne : a ≢ lock = λ q. d (h.one_key key i lock own_held (e ∙ ap some q)) in
          ground (arith, c, z, ne);
    }

    abbrev removed_after : Option ℕ → KeyLockMap K
    removed_after r = record (remove_if_last dec p key r) { alive = put releasing }

    remove_lem : IsShared (removed_after (p.locks key))
    remove_lem =
        let c = h.exact key lock own_held in
        let z = holders_here removing here lock in
        subst (λ r. IsShared (removed_after r)) (sym own_held)
          (elim (Bool-cases (leb (p.counts lock) 2)) [
            | inl b ↦ rw b (removed_lem (ground (arith, b, c, z)))
            | inr b ↦ rw b (step_lem removing here releasing (λ t. tt))
          ])

  pub drop_lock-IsShared :
      (x : DropPhase) → p.alive ≡ put x → IsShared (drop_lock dec p key lock x before after)
  unfolding drop_lock
  drop_lock-IsShared in_use here = elim (Bool-cases (leb (p.counts lock) 2)) [
    | inl b ↦ rw b (step_lem in_use here removing (λ t. t))
    | inr b ↦ rw b (step_lem in_use here releasing (λ t. tt))
  ]
  drop_lock-IsShared removing here = remove_lem here
  drop_lock-IsShared releasing here = release_lem releasing here
