-- ===== src/Initializer/Reachable.antt =====
-- src/sync/value_initializer.rs: the states that calls of `try_init_or_read` can reach together.
use moka.Base.{ℕ, ◌≡◌, ap, subst, sym, ◌∙◌, some}
use mathlib.Core.Option.{some-injective, none-ne-some}
use moka.Initializer.{
  unexpected_state, evaluating, ended, Event, Call, ValueInitializer, step_call, try_init_or_read,
  with_hasher,
}
use moka.Initializer.Safety.{IsGood, IsOrdered, Poisoned}
use moka.Initializer.Runs.{IsFine, step_call-IsFine, try_init_or_read-IsFine}

pub data Reachable {W V E : Type 0} (dec : Discrete W) : ValueInitializer W V E → Type 0 where
  created : Reachable dec (with_hasher W V E)
  called :
      {p p' : ValueInitializer W V E} (n : ℕ) (w : W)
      → Reachable dec p
      → try_init_or_read p n w ≡ some p'
      → Reachable dec p'
  stepped :
      {p p' : ValueInitializer W V E} (n : ℕ) (event : Event V E)
      → Reachable dec p
      → step_call dec p n event ≡ some p'
      → Reachable dec p'

module _ {W V E : Type 0} (dec : Discrete W) where
  with_hasher-IsOrdered : IsOrdered (with_hasher W V E)
  unfolding with_hasher
  with_hasher-IsOrdered = record {
    good = λ n c k. absurd (none-ne-some c k);
    held = λ w o k. absurd (none-ne-some o k);
  }

  pub reachable-IsOrdered : (p : ValueInitializer W V E) → Reachable dec p → IsOrdered p
  reachable-IsOrdered p created = with_hasher-IsOrdered
  reachable-IsOrdered p (called {p = q} n w r k) =
      subst IsFine k (try_init_or_read-IsFine dec q (reachable-IsOrdered q r) n w)
  reachable-IsOrdered p (stepped {p = q} n event r k) =
      subst IsFine k (step_call-IsFine dec q (reachable-IsOrdered q r) n event)

  module _ (p : ValueInitializer W V E) (r : Reachable dec p) where
    -- In every state that calls of `try_init_or_read` reach from an empty table, however their
    -- steps interleave, if one of them has ended in the panic for the unexpected state of
    -- another call's waiter, then a call for the same waiter key, the key of the cache with the
    -- type id, has been left by a panic of user code outside `catch_unwind`: in `get`,
    -- `post_init`, `insert` or a `clone`.
    pub unexpected_state-Poisoned :
        (n : ℕ) (c : Call W V E)
        → p.calls n ≡ some c
        → c.phase ≡ ended unexpected_state
        → Poisoned p c.key
    unexpected_state-Poisoned n c k e =
        (subst (IsGood p n c.key) e ((reachable-IsOrdered p r).good n c k)).1

    -- In no state that calls of `try_init_or_read` reach from an empty table, however their
    -- steps interleave, do two of them evaluate `init` at once for the same waiter key, the key
    -- of the cache with the type id.
    pub one_evaluation :
        (n m : ℕ) (c d : Call W V E)
        → p.calls n ≡ some c
        → p.calls m ≡ some d
        → c.key ≡ d.key
        → c.phase ≡ evaluating
        → d.phase ≡ evaluating
        → n ≡ m
    one_evaluation n m c d k l q e g =
        let (b, t) = subst (IsGood p n c.key) e ((reachable-IsOrdered p r).good n c k) in
        let (a, u) = subst (IsGood p m d.key) g ((reachable-IsOrdered p r).good m d l) in
        some-injective n m (sym t ∙ ap p.waiters q ∙ u)
