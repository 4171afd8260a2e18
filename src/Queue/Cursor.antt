-- ===== src/Queue/Cursor.antt =====
-- A pointer into a deque splits it: what the operations do at the node behind it.
use mathlib.Core.List.{append_assoc}
use moka.Base.{
  ℕ, ◌≡◌, refl, ◌≢◌, ◌∙◌, inl, inr, [], ◌∷◌, ◌++◌, false, none, some, arith, length, length-append,
  Option-cases, ℕ_discrete,
}
use moka.Queue.{Queue, find, contains, unlink, push_back, move_to_back, peek_front_ptr, next_node}
use moka.Queue.Laws.{
  Distinct, contains-append, contains-unlink_self, length-unlink, find-some-contains,
}

module _ {ℓ} {T : Type ℓ} where
  pub absent_before :
      (a : ℕ) (e : T) (p r : Queue T) → Distinct (p ++ (a, e) ∷ r) → contains a p ≡ false
  unfolding contains
  absent_before a e [] r d = refl
  absent_before a e ((b, f) ∷ p) r d =
      ground (arith, d.0, contains-append b p ((a, e) ∷ r), absent_before a e p r d.1)

  pub find_split :
      (a : ℕ) (e : T) (p r : Queue T) → contains a p ≡ false → find a (p ++ (a, e) ∷ r) ≡ some e
  unfolding find contains
  find_split a e [] r h = ground arith
  find_split a e ((b, f) ∷ p) r h = ground (arith, find_split a e p r)

  pub unlink_split :
      (a : ℕ) (e : T) (p r : Queue T) → contains a p ≡ false → unlink a (p ++ (a, e) ∷ r) ≡ p ++ r
  unfolding unlink contains
  unlink_split a e [] r h = ground arith
  unlink_split a e ((b, f) ∷ p) r h = ground (arith, unlink_split a e p r)

  pub next_node_split :
      (a : ℕ) (e : T) (p r : Queue T)
      → contains a p ≡ false
      → next_node a (p ++ (a, e) ∷ r) ≡ peek_front_ptr r
  unfolding next_node contains
  next_node_split a e [] [] h = refl
  next_node_split a e [] ((b, f) ∷ r) h = ground arith
  next_node_split a e ((b, f) ∷ []) r h = ground (arith, next_node_split a e [] r)
  next_node_split a e ((b, f) ∷ (c, g) ∷ p) r h = ground (arith, next_node_split a e ((c, g) ∷ p) r)

  pub move_to_back_split :
      (a : ℕ) (e : T) (p r : Queue T)
      → contains a p ≡ false
      → move_to_back a (p ++ (a, e) ∷ r) ≡ p ++ push_back a e r
  unfolding move_to_back
  move_to_back_split a e p r h =
      rw (find_split a e p r h, move_to_back)
        (rw (unlink_split a e p r h) (append_assoc p r ((a, e) ∷ [])))

  pub find-push_back_ne :
      (a b : ℕ) (e : T) (q : Queue T) → a ≢ b → find b (push_back a e q) ≡ find b q
  unfolding find
  find-push_back_ne a b e [] h = ground arith
  find-push_back_ne a b e ((c, f) ∷ q) h = ground (arith, find-push_back_ne a b e q h)

  pub find-unlink_ne : (a b : ℕ) (q : Queue T) → a ≢ b → find b (unlink a q) ≡ find b q
  unfolding find unlink
  find-unlink_ne a b [] h = refl
  find-unlink_ne a b ((c, e) ∷ q) h = ground (arith, find-unlink_ne a b q h)

  pub find-push_back_self :
      (a : ℕ) (e : T) (q : Queue T) → contains a q ≡ false → find a (push_back a e q) ≡ some e
  find-push_back_self a e q h = find_split a e q [] h

  -- Moving a node keeps what each pointer points to.
  pub find-move_to_back :
      (a b : ℕ) (q : Queue T) → Distinct q → find b (move_to_back a q) ≡ find b q
  unfolding move_to_back
  find-move_to_back a b q d = elim (Option-cases (find a q)) [
    | inl h ↦ rw (h, move_to_back) refl
    | inr (e, h) ↦ rw (h, move_to_back) (moved e h (ℕ_discrete a b))
  ]
    where
      moved :
          (e : T) → find a q ≡ some e → Dec (a ≡ b) → find b (push_back a e (unlink a q)) ≡ find b q
      moved e h (yes p) =
          rw (← p, h) (find-push_back_self a e (unlink a q) (contains-unlink_self a q d))
      moved e h (no n) = find-push_back_ne a b e (unlink a q) n ∙ find-unlink_ne a b q n

  pub find_absent : (a : ℕ) (q : Queue T) → contains a q ≡ false → find a q ≡ none
  unfolding find contains
  find_absent a [] h = refl
  find_absent a ((c, e) ∷ q) h = ground (arith, find_absent a q)

  pub find-unlink_self : (a : ℕ) (q : Queue T) → Distinct q → find a (unlink a q) ≡ none
  find-unlink_self a q d = find_absent a (unlink a q) (contains-unlink_self a q d)

  pub length-move_to_back : (a : ℕ) (q : Queue T) → length (move_to_back a q) ≡ length q
  unfolding move_to_back
  length-move_to_back a q = elim (Option-cases (find a q)) [
    | inl h ↦ rw (h, move_to_back) refl
    | inr (e, h) ↦
        rw (h, move_to_back)
          (ground (
            arith,
            length-append (unlink a q) ((a, e) ∷ []),
            length-unlink a q (find-some-contains a q e h),
          ))
  ]
