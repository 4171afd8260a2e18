-- ===== src/Deque/Segment.antt =====
-- src/common/deque.rs: a list of nodes linked in the heap, its parts, and the writes at its ends.
use moka.Base.{
  ℕ, ◌≡◌, refl, sym, ap, ◌∙◌, [], ◌∷◌, ◌++◌, true, false, Option, some, arith, ◌==◌, Bool-cases,
  inl, inr,
}
use mathlib.Core.Bool.{true≢false}
use moka.Queue.{Queue, contains}
use moka.Queue.Laws.{Distinct}
use moka.Deque.{DeqNode, Heap, put, set_next, set_prev}

module _ {T : Type 0} where
  -- The first pointer of a list that goes on to `n`, and the last of one that comes after `p`.
  abbrev pub front : Queue T → Option ℕ → Option ℕ
  front [] n = n
  front ((a, e) ∷ q) n = some a

  abbrev pub back : Option ℕ → Queue T → Option ℕ
  back p [] = p
  back p ((a, e) ∷ q) = back (some a) q

  -- The nodes of the list, linked with each other, with `p` before and `n` behind them.
  abbrev pub Linked : Heap T → Option ℕ → Queue T → Option ℕ → Type 0
  Linked h p [] n = Unit {0}
  Linked h p ((a, e) ∷ q) n =
      (h a ≡ some (record { next = front q n; prev = p; element = e })) × Linked h (some a) q n

  -- The heaps agree on the nodes of the list.
  abbrev pub Agree : Heap T → Heap T → Queue T → Type 0
  Agree h h' q = (b : ℕ) → contains b q ≡ true → h' b ≡ h b

  pub Linked-Agree :
      (h h' : Heap T) (p n : Option ℕ) (q : Queue T)
      → Agree h h' q
      → Linked h p q n
      → Linked h' p q n
  unfolding contains
  Linked-Agree h h' p n [] g l = tt
  Linked-Agree h h' p n ((a, e) ∷ q) g l = (
    ground (arith, g a, l.0),
    Linked-Agree h h' (some a) n q (λ b c. g b (ground (arith, c))) l.1,
  )

  pub differs :
      (a b : ℕ) (q : Queue T) → contains a q ≡ false → contains b q ≡ true → (b == a) ≡ false
  differs a b q n c = elim (Bool-cases (b == a)) [
    | inr w ↦ w
    | inl w ↦
        let same : b ≡ a = ground (arith, w) in
        absurd (true≢false (sym c ∙ ap (λ x. contains x q) same ∙ n))
  ]

  -- A write to a node that is not of the list.
  pub Agree-put :
      (h : Heap T) (a : ℕ) (n : DeqNode T) (q : Queue T)
      → contains a q ≡ false
      → Agree h (put h a n) q
  Agree-put h a n q u b c = rw (differs a b q u c) refl

  pub Linked-append :
      (h : Heap T) (p n : Option ℕ) (q r : Queue T)
      → Linked h p q (front r n)
      → Linked h (back p q) r n
      → Linked h p (q ++ r) n
  Linked-append h p n [] r l m = m
  Linked-append h p n ((a, e) ∷ []) r l m = (l.0, m)
  Linked-append h p n ((a, e) ∷ (b, f) ∷ q) r l m =
      (l.0, Linked-append h (some a) n ((b, f) ∷ q) r l.1 m)

  pub Linked-split :
      (h : Heap T) (p n : Option ℕ) (q r : Queue T)
      → Linked h p (q ++ r) n
      → Linked h p q (front r n) × Linked h (back p q) r n
  Linked-split h p n [] r l = (tt, l)
  Linked-split h p n ((a, e) ∷ []) r l = ((l.0, tt), l.1)
  Linked-split h p n ((a, e) ∷ (b, f) ∷ q) r l =
      let (x, y) = Linked-split h (some a) n ((b, f) ∷ q) r l.1 in ((l.0, x), y)

  pub front-append : (q r : Queue T) (n : Option ℕ) → front (q ++ r) n ≡ front q (front r n)
  front-append [] r n = refl
  front-append ((a, e) ∷ q) r n = refl

  pub back-append : (p : Option ℕ) (q r : Queue T) → back p (q ++ r) ≡ back (back p q) r
  back-append p [] r = refl
  back-append p ((a, e) ∷ q) r = back-append (some a) q r

  -- The last pointer of a list with nodes is one of them.
  pub back-contains :
      (p : Option ℕ) (a : ℕ) (e : T) (q : Queue T)
      → (t : ℕ) × (back p ((a, e) ∷ q) ≡ some t) × (contains t ((a, e) ∷ q) ≡ true)
  unfolding contains
  back-contains p a e [] = (a, refl, ground arith)
  back-contains p a e ((b, f) ∷ q) =
      let (t, k, c) = back-contains (some a) b f q in (t, k, ground (arith, c))

  -- A write behind the last node.
  pub set_next-back :
      (h : Heap T) (p n v : Option ℕ) (a : ℕ) (e : T) (q : Queue T)
      → Distinct ((a, e) ∷ q)
      → Linked h p ((a, e) ∷ q) n
      → (t : ℕ) × (h' : Heap T) × (back p ((a, e) ∷ q) ≡ some t)
        × (set_next h t v ≡ some h')
        × Linked h' p ((a, e) ∷ q) v
        × ((b : ℕ) → contains b ((a, e) ∷ q) ≡ false → h' b ≡ h b)
        × (contains t ((a, e) ∷ q) ≡ true)
  unfolding contains set_next
  set_next-back h p n v a e [] d l = (
    a,
    put h a (record { next = v; prev = p; element = e }),
    refl,
    rw (l.0) refl,
    (ground arith, tt),
    λ b c. ground (arith, c),
    ground arith,
  )
  set_next-back h p n v a e ((b, f) ∷ q) d l =
      let (t, h', k, s, m, g, c) = set_next-back h (some a) n v b f q d.1 l.1 in
      (t, h', k, s, (g a d.0 ∙ l.0, m), λ x y. g x (ground (arith, y)), ground (arith, c))

  -- A write before the first node.
  pub set_prev-front :
      (h : Heap T) (p n v : Option ℕ) (a : ℕ) (e : T) (q : Queue T)
      → Distinct ((a, e) ∷ q)
      → Linked h p ((a, e) ∷ q) n
      → (h' : Heap T) × (set_prev h a v ≡ some h')
        × Linked h' v ((a, e) ∷ q) n
        × ((b : ℕ) → contains b ((a, e) ∷ q) ≡ false → h' b ≡ h b)
  unfolding contains set_prev
  set_prev-front h p n v a e q d l =
      let h' = put h a (record { next = front q n; prev = v; element = e }) in
      (
        h',
        rw (l.0) refl,
        (ground arith, Linked-Agree h h' (some a) n q (λ b c. ground (arith, c, d.0)) l.1),
        λ b c. ground (arith, c),
      )
