-- ===== src/KeyLock/Shared.antt =====
-- src/sync/key_lock.rs: the mutexes of the key locks that are alive.
use mathlib.Core.Option.{some-injective, none-ne-some}
use moka.Base.{
  ℕ, suc, ◌+◌, ◌==◌, ◌≡◌, ◌≢◌, ◌⊎◌, refl, ap, subst, sym, ◌∙◌, inl, inr, List, [], ◌∷◌, Option,
  none, some, All, arith, ℕ_discrete, if◌then◌else◌, Option-cases,
}
use moka.Concurrent.{update}
use moka.Cache.Map.{ite-yes, ite-no}
use moka.KeyLock.{
  DropPhase, in_use, removing, releasing, KeyLock, KeyLockMap, empty_map, set_lock, add_lock,
  key_lock,
}

-- How many key locks hold a mutex.
abbrev pub holders : {K : Type 0} → ℕ → List (KeyLock K) → ℕ
holders a [] = 0
holders a (l ∷ ls) = (if l.lock == a then 1 else 0) + holders a ls

-- Something that is so until the `remove_if`.
abbrev pub Until : DropPhase → Type 0 → Type 0
Until in_use A = A
Until removing A = A
Until releasing A = Unit {0}

pub Until-map : {A B : Type 0} (x : DropPhase) → (A → B) → Until x A → Until x B
Until-map in_use f h = f h
Until-map removing f h = f h
Until-map releasing f h = tt

module _ {K : Type 0} where
  -- The mutex of the key lock is the one that the map has for its key.
  abbrev pub IsHeld : (K → Option ℕ) → KeyLock K → Type 0
  IsHeld locks l = Until l.phase (locks l.key ≡ some l.lock)

  -- A key lock before its `remove_if` has the mutex that the map has for its key; no mutex is there
  -- for two keys; and a mutex in the map has as many references as there are, with the map's.
  pub record IsShared (p : KeyLockMap K) : Type 0 where
    pub held : All (IsHeld p.locks) p.alive
    pub one_key : (i j : K) (a : ℕ) → p.locks i ≡ some a → p.locks j ≡ some a → i ≡ j
    pub exact : (i : K) (a : ℕ) → p.locks i ≡ some a → p.counts a ≡ suc (holders a p.alive)

  -- The address is of no mutex that the map or a key lock has.
  abbrev pub IsNew : KeyLockMap K → ℕ → Type 0
  IsNew p addr = ((i : K) → p.locks i ≢ some addr) × (holders addr p.alive ≡ 0)

  pub empty_map-IsShared : IsShared (empty_map K)
  unfolding empty_map
  empty_map-IsShared = record {
    held = tt;
    one_key = λ i j a h. absurd (none-ne-some a h);
    exact = λ i a h. absurd (none-ne-some a h);
  }

module _ {K : Type 0} (dec : Discrete K) (p : KeyLockMap K) (h : IsShared p) (key : K) where
  pub set_same : (o : Option ℕ) → set_lock dec p.locks key o key ≡ o
  set_same o = ite-yes (dec key key) o (p.locks key) refl

  pub set_other : (o : Option ℕ) (j : K) → key ≢ j → set_lock dec p.locks key o j ≡ p.locks j
  set_other o j d = ite-no (dec key j) o (p.locks j) d

  -- The other keys keep their mutexes.
  set_lock-IsHeld :
      (o : Option ℕ) (ls : List (KeyLock K))
      → p.locks key ≡ none
      → All (IsHeld p.locks) ls
      → All (IsHeld (set_lock dec p.locks key o)) ls
  set_lock-IsHeld o [] n a = tt
  set_lock-IsHeld o (l ∷ ls) n a = (
    Until-map l.phase
        (λ t. set_other o l.key (λ q. none-ne-some l.lock (sym n ∙ ap p.locks q ∙ t)) ∙ t) a.0,
    set_lock-IsHeld o ls n a.1,
  )

  shared_lem : (e : ℕ) → p.locks key ≡ some e → IsShared (add_lock dec p key e (some e))
  shared_lem e t = record {
    held = (t, h.held);
    one_key = h.one_key;
    exact = λ i a u.
        let c = h.exact i a u in
        elim (ℕ_discrete a e) [ yes q ↦ ground (arith, c, q) | no d ↦ ground (arith, c, d) ];
  }

  module _ (addr : ℕ) (new : IsNew p addr) (n : p.locks key ≡ none) where
    abbrev own_table : K → Option ℕ
    own_table = set_lock dec p.locks key (some addr)

    -- Who is in the table now, was so before or is the new one.
    table_cases :
        (i : K) (a : ℕ)
        → own_table i ≡ some a
        → ((key ≡ i) × (a ≡ addr)) ⊎ ((key ≢ i) × (p.locks i ≡ some a))
    table_cases i a t = elim (dec key i) [
      | yes q ↦ inl (
        q,
        sym (
            some-injective addr a
              (sym (set_same (some addr)) ∙ subst (λ j. own_table j ≡ some a) (sym q) t)),
      )
      | no d ↦ inr (d, sym (set_other (some addr) i d) ∙ t)
    ]

    one_key_new : (i j : K) (a : ℕ) → own_table i ≡ some a → own_table j ≡ some a → i ≡ j
    one_key_new i j a t u = elim (table_cases i a t) [
      | inl (q, e) ↦ elim (table_cases j a u) [
        | inl (r, g) ↦ sym q ∙ r
        | inr (d, g) ↦ absurd (new.0 j (g ∙ ap some e))
      ]
      | inr (d, e) ↦ elim (table_cases j a u) [
        | inl (r, g) ↦ absurd (new.0 i (e ∙ ap some g))
        | inr (b, g) ↦ h.one_key i j a e g
      ]
    ]

    new_lem : IsShared (add_lock dec p key addr none)
    new_lem = record {
      held = (set_same (some addr), set_lock-IsHeld (some addr) p.alive n h.held);
      one_key = one_key_new;
      exact = λ i a t. elim (table_cases i a t) [
        | inl (q, e) ↦
            subst
              (λ b.
                update p.counts addr 2 b ≡ suc ((if addr == b then 1 else 0) + holders b p.alive))
              (sym e) (let z = new.1 in ground (arith, z))
        | inr (d, e) ↦
            let c = h.exact i a e in
            let ne : a ≢ addr = λ q. new.0 i (e ∙ ap some q) in ground (arith, c, ne)
      ];
    }

  pub key_lock-IsShared : (addr : ℕ) → IsNew p addr → IsShared (key_lock dec p key addr)
  unfolding key_lock
  key_lock-IsShared addr new = elim (Option-cases (p.locks key)) [
    | inl n ↦ subst (λ r. IsShared (add_lock dec p key addr r)) (sym n) (new_lem addr new n)
    | inr (e, t) ↦ subst (λ r. IsShared (add_lock dec p key addr r)) (sym t) (shared_lem e t)
  ]
