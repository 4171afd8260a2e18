-- ===== src/Queue/Laws.antt =====
-- The laws of the list view of a deque: membership, lengths and distinct addresses.
use moka.Base.{
  ℕ, ◌+◌, ◌≡◌, refl, ◌≢◌, inl, inr, [], ◌∷◌, ◌++◌, Bool, true, false, ◌||◌, none, some, ◌==◌,
  length, arith, Bool-cases, Option-cases, ℕ_discrete,
}
use moka.Queue.{Queue, find, contains, unlink, push_back, move_to_back}

module _ {ℓ} {T : Type ℓ} where
  -- No two nodes have the same address.
  abbrev pub Distinct : Queue T → Type 0
  Distinct [] = Unit {0}
  Distinct ((a, e) ∷ q) = (contains a q ≡ false) × Distinct q

  pub contains-append :
      (a : ℕ) (p q : Queue T) → contains a (p ++ q) ≡ (contains a p || contains a q)
  unfolding contains
  contains-append a [] q = refl
  contains-append a ((b, e) ∷ p) q = ground (arith, contains-append a p q)

  pub contains-unlink_ne : (a b : ℕ) (q : Queue T) → a ≢ b → contains b (unlink a q) ≡ contains b q
  unfolding contains unlink
  contains-unlink_ne a b [] h = refl
  contains-unlink_ne a b ((c, e) ∷ q) h = ground (arith, contains-unlink_ne a b q h)

  pub contains-unlink_self : (a : ℕ) (q : Queue T) → Distinct q → contains a (unlink a q) ≡ false
  unfolding contains unlink
  contains-unlink_self a [] d = refl
  contains-unlink_self a ((c, e) ∷ q) d = ground (arith, contains-unlink_self a q d.1)

  pub unlink_absent : (a : ℕ) (q : Queue T) → contains a q ≡ false → unlink a q ≡ q
  unfolding contains unlink
  unlink_absent a [] h = refl
  unlink_absent a ((c, e) ∷ q) h = ground (arith, unlink_absent a q)

  pub find-contains : (a : ℕ) (q : Queue T) → find a q ≡ none → contains a q ≡ false
  unfolding contains find
  find-contains a [] h = refl
  find-contains a ((c, e) ∷ q) h = ground (arith, find-contains a q)

  pub find-some-contains : (a : ℕ) (q : Queue T) (e : T) → find a q ≡ some e → contains a q ≡ true
  unfolding contains find
  find-some-contains a [] e h = cc
  find-some-contains a ((c, f) ∷ q) e h = ground (arith, find-some-contains a q e)

  pub length-unlink :
      (a : ℕ) (q : Queue T) → contains a q ≡ true → length (unlink a q) + 1 ≡ length q
  unfolding contains unlink
  length-unlink a [] h = cc
  length-unlink a ((c, e) ∷ q) h = ground (arith, length-unlink a q)

  pub unlink-Distinct : (a : ℕ) (q : Queue T) → Distinct q → Distinct (unlink a q)
  unfolding unlink
  unlink-Distinct a [] d = tt
  unlink-Distinct a ((c, e) ∷ q) d = elim (Bool-cases (c == a)) [
    | inl h ↦ rw h d.1
    | inr h ↦ rw h (rw (contains-unlink_ne a c q (ground arith)) d.0, unlink-Distinct a q d.1)
  ]

  pub push_back-Distinct :
      (a : ℕ) (e : T) (q : Queue T) → contains a q ≡ false → Distinct q → Distinct (push_back a e q)
  unfolding contains
  push_back-Distinct a e [] h d = (refl, tt)
  push_back-Distinct a e ((c, f) ∷ q) h d = (
    rw (contains-append c q ((a, e) ∷ [])) (ground arith),
    push_back-Distinct a e q (ground arith) d.1,
  )

  pub move_to_back-Distinct : (a : ℕ) (q : Queue T) → Distinct q → Distinct (move_to_back a q)
  unfolding move_to_back
  move_to_back-Distinct a q d = elim (Option-cases (find a q)) [
    | inl h ↦ rw (h, move_to_back) d
    | inr (e, h) ↦
        rw (h, move_to_back)
          (push_back-Distinct a e (unlink a q) (contains-unlink_self a q d) (unlink-Distinct a q d))
  ]

  contains_last : (a : ℕ) (e : T) (c : Bool) → (c || contains {T = T} a ((a, e) ∷ [])) ≡ true
  unfolding contains
  contains_last a e c = ground arith

  contains_other :
      (a b : ℕ) (e : T) (c : Bool) → a ≢ b → (c || contains {T = T} b ((a, e) ∷ [])) ≡ c
  unfolding contains
  contains_other a b e c h = ground arith

  -- Moving a node keeps the nodes.
  pub contains-move_to_back :
      (a b : ℕ) (q : Queue T) → Distinct q → contains b (move_to_back a q) ≡ contains b q
  unfolding move_to_back
  contains-move_to_back a b q d = elim (Option-cases (find a q)) [
    | inl h ↦ rw (h, move_to_back) refl
    | inr (e, h) ↦
        rw (h, move_to_back) (rw (contains-append b (unlink a q) ((a, e) ∷ [])) (last e h))
  ]
    where
      last :
          (e : T)
          → find a q ≡ some e
          → (contains b (unlink a q) || contains b ((a, e) ∷ [])) ≡ contains b q
      last e h = elim (ℕ_discrete a b) [
        | yes p ↦ rw (← p, find-some-contains a q e h) (contains_last a e (contains a (unlink a q)))
        | no p ↦ rw (contains-unlink_ne a b q p) (contains_other a b e (contains b q) p)
      ]
