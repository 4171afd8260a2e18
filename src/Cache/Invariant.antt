-- ===== src/Cache/Invariant.antt =====
-- src/sync/base_cache.rs: the invariant of the state between two operations of a maintenance run,
-- and the changes that do not concern it.
pub mod Policy
pub mod Removal
pub mod Moves
pub mod Victims
pub mod Handle
pub mod Evict
pub mod EvictLoop
pub mod ExpireLoop
pub mod Sweep
pub mod Steps
use moka.Base.{
  ℕ, zero, suc, ◌+◌, ◌≤◌, ◌<◌, ◌≡◌, refl, sym, ap, subst, ◌∙◌, ◌≢◌, ◌⊎◌, inl, inr, List, [], ◌∷◌,
  Bool, true, false, not, Option, none, some, Option-cases, Bool-cases, ◌==◌, ◌&&◌, if◌then◌else◌,
  length, arith, ℕ_discrete, ◌>>=◌,
}
use mathlib.Core.Logic.{ite}
use mathlib.Core.Option.{some-injective}
use moka.EntryInfo.{EntryInfo, retire, set_policy_gen}
use moka.Concurrent.{Shared, ValueEntry, set_info}
use moka.Cache.{
  State, Config, RemovalCause, put_info, get, erase, cht_remove_if_and_retire, record_eviction,
  EvictionCounters,
}
use moka.Cache.Map.{taken_out}
use moka.Cache.Policy.{store_policy_gen}
use moka.Cache.Linked.{IsLinked, IsCounted, IsPaired, ao_node, wo_node, is_admitted_at}
use moka.Cache.Linked.Frame.{
  SameLinks, SameLinks-trans, SameLinks-refl, IsLinked-SameLinks, IsCounted-SameLinks,
}
use moka.Cache.Linked.Timed.{IsTimed, SameButTimers, timer_at}

module _ {K V : Type 0} where
  -- Every entry of the map is paired with its queue nodes, and is as `P` says.
  abbrev pub AllPaired : (K → ValueEntry V → Type 0) → List (K × ValueEntry V) → Type 0
  AllPaired P [] = Unit {0}
  AllPaired P ((k, e) ∷ m) = IsPaired e × P k e × AllPaired P m

  pub record IsConsistent (P : K → ValueEntry V → Type 0) (s : State K V) : Type 0 where
    pub links : IsLinked s
    pub timers : IsTimed s
    pub count : IsCounted s
    pub paired : AllPaired P s.cache

  -- A change that the invariant does not see, but for entries that leave the map.
  pub record Harmless (s s' : State K V) : Type 1 where
    pub same_links : SameLinks s s'
    pub same_wheel : s'.timer_wheel ≡ s.timer_wheel
    pub same_timers : (i : ℕ) → timer_at s' i ≡ timer_at s i
    pub still_paired : (P : K → ValueEntry V → Type 0) → AllPaired P s.cache → AllPaired P s'.cache

  pub Harmless-refl : (s : State K V) → Harmless s s
  Harmless-refl s = record {
    same_links = SameLinks-refl s;
    same_wheel = refl;
    same_timers = λ i. refl;
    still_paired = λ P h. h;
  }

  pub Harmless-trans : (s s1 s2 : State K V) → Harmless s s1 → Harmless s1 s2 → Harmless s s2
  Harmless-trans s s1 s2 f g = record {
    same_links = SameLinks-trans s s1 s2 f.same_links g.same_links;
    same_wheel = g.same_wheel ∙ f.same_wheel;
    same_timers = λ i. g.same_timers i ∙ f.same_timers i;
    still_paired = λ P h. g.still_paired P (f.still_paired P h);
  }

  -- The timers do not see a change of the rest.
  pub IsTimed-frame :
      (s s' : State K V)
      → s'.timer_wheel ≡ s.timer_wheel
      → ((i : ℕ) → timer_at s' i ≡ timer_at s i)
      → s.next_addr ≤ s'.next_addr
      → IsTimed s
      → IsTimed s'
  IsTimed-frame s s' w t n l = record {
    sound = rw w (l.sound);
    timer_valid = rw w (λ i a h. l.timer_valid i a (sym (t i) ∙ h));
    timer_unique = λ i j a h g. l.timer_unique i j a (sym (t i) ∙ h) (sym (t j) ∙ g);
    timer_fresh = rw w (λ a h. l.timer_fresh a (omega (arith, n)));
    addr_pos = omega (arith, l.addr_pos, n);
  }

  pub IsConsistent-Harmless :
      {P : K → ValueEntry V → Type 0} (s s' : State K V)
      → Harmless s s'
      → IsConsistent P s
      → IsConsistent P s'
  IsConsistent-Harmless {P = P} s s' f c = record {
    links = IsLinked-SameLinks s s' f.same_links c.links;
    timers = IsTimed-frame s s' f.same_wheel f.same_timers (f.same_links.later) c.timers;
    count = IsCounted-SameLinks s s' f.same_links c.count;
    paired = f.still_paired P c.paired;
  }

  pub IsConsistent-SameButTimers :
      {P : K → ValueEntry V → Type 0} (s s' : State K V)
      → SameButTimers s s'
      → IsTimed s'
      → IsConsistent P s
      → IsConsistent P s'
  IsConsistent-SameButTimers {P = P} s s' f t c = record {
    links = IsLinked-SameLinks s s' f.same_links c.links;
    timers = t;
    count = IsCounted-SameLinks s s' f.same_links c.count;
    paired = subst (AllPaired P) (sym f.same_cache) c.paired;
  }

  pub store_policy_gen-Harmless :
      (s : State K V) (e : ValueEntry V) (gen : Option ℕ) → Harmless s (store_policy_gen s e gen)
  unfolding store_policy_gen set_policy_gen
  store_policy_gen-Harmless s e none = Harmless-refl s
  store_policy_gen-Harmless s e (some gen) = record {
    same_links = record {
      same_deques = refl;
      same_count = refl;
      same_ao = λ i. refl;
      same_wo = λ i. refl;
      same_admitted = λ i. grind arith;
      later = omega arith;
    };
    same_wheel = refl;
    same_timers = λ i. refl;
    still_paired = λ P h. h;
  }

  -- A change of an info that keeps its admission.
  pub put_info-Harmless :
      (s : State K V) (i : ℕ) (info : EntryInfo K)
      → info.is_admitted ≡ is_admitted_at s i
      → Harmless s (put_info s i info)
  put_info-Harmless s i info a = record {
    same_links = record {
      same_deques = refl;
      same_count = refl;
      same_ao = λ j. refl;
      same_wo = λ j. refl;
      same_admitted = λ j. grind (arith, a);
      later = omega arith;
    };
    same_wheel = refl;
    same_timers = λ j. refl;
    still_paired = λ P h. h;
  }

  -- A change of the map alone.
  pub with_cache-IsConsistent :
      {P Q : K → ValueEntry V → Type 0} (s : State K V) (m : List (K × ValueEntry V))
      → IsConsistent P s
      → AllPaired Q m
      → IsConsistent Q (record s { cache = m })
  with_cache-IsConsistent s m h p =
      let s' = record s { cache = m } in
      let f : SameLinks s s' = record {
        same_deques = refl;
        same_count = refl;
        same_ao = λ i. refl;
        same_wo = λ i. refl;
        same_admitted = λ i. refl;
        later = omega arith;
      } in
      record {
        links = IsLinked-SameLinks s s' f h.links;
        timers = IsTimed-frame s s' refl (λ i. refl) (omega arith) h.timers;
        count = IsCounted-SameLinks s s' f h.count;
        paired = p;
      }

  pub record_eviction-Harmless :
      (c : Config) (s : State K V) (k : K) (e : ValueEntry V) (cause : RemovalCause)
      → Harmless s (record_eviction c s k e cause)
  unfolding record_eviction
  record_eviction-Harmless c s k e cause = record {
    same_links = record {
      same_deques = refl;
      same_count = refl;
      same_ao = λ i. refl;
      same_wo = λ i. refl;
      same_admitted = λ i. refl;
      later = omega arith;
    };
    same_wheel = refl;
    same_timers = λ i. refl;
    still_paired = λ P h. h;
  }

  module _ (dec : Discrete K) where
    pub AllPaired-erase :
        (P : K → ValueEntry V → Type 0) (k : K) (m : List (K × ValueEntry V))
        → AllPaired P m
        → AllPaired P (erase dec k m)
    unfolding erase
    AllPaired-erase P k [] h = tt
    AllPaired-erase P k ((j, e) ∷ m) (h, p, hs) =
        let ih = AllPaired-erase P k m hs in
        elim (dec j k) as (λ d. AllPaired P (ite d (erase dec k m) ((j, e) ∷ erase dec k m))) [
          | yes q ↦ ih
          | no n ↦ (h, p, ih)
        ]

    pub get-AllPaired :
        (P : K → ValueEntry V → Type 0) (k : K) (m : List (K × ValueEntry V)) (e : ValueEntry V)
        → AllPaired P m
        → get dec k m ≡ some e
        → IsPaired e × P k e
    unfolding get
    get-AllPaired P k [] e h g = cc
    get-AllPaired P k ((j, f) ∷ m) e (h, p, hs) g =
        let ih = get-AllPaired P k m e hs in
        elim (dec j k) as (λ d. ite d (some f) (get dec k m) ≡ some e → IsPaired e × P k e) [
          | yes q ↦ λ x. (
            subst IsPaired (some-injective f e x) h,
            subst (λ y. P y e) q (subst (P j) (some-injective f e x) p),
          )
          | no n ↦ λ x. ih x
        ]
          g

    pub get-IsPaired :
        {P : K → ValueEntry V → Type 0} (s : State K V) (k : K) (e : ValueEntry V)
        → IsConsistent P s
        → get dec k s.cache ≡ some e
        → IsPaired e
    get-IsPaired {P = P} s k e h g = (get-AllPaired P k s.cache e h.paired g).0

    pub taken_out-Harmless :
        (s : State K V) (k : K) (e : ValueEntry V) → Harmless s (taken_out dec s k e)
    taken_out-Harmless s k e = record {
      same_links = record {
        same_deques = refl;
        same_count = refl;
        same_ao = λ i. refl;
        same_wo = λ i. refl;
        same_admitted = λ i. grind arith;
        later = omega arith;
      };
      same_wheel = refl;
      same_timers = λ i. refl;
      still_paired = λ P h. AllPaired-erase P k s.cache h;
    }

  abbrev pub AdmitsNone : State K V → State K V → Type 0
  AdmitsNone s s' = (i : ℕ) → is_admitted_at s i ≡ false → is_admitted_at s' i ≡ false

module _ {K V : Type 0} (P : K → ValueEntry V → Type 0) where
  -- A step that succeeds and keeps the invariant; one that in addition admits no entry.
  abbrev pub Keeps : Option (State K V) → Type 0
  Keeps r = (s' : State K V) × (r ≡ some s') × IsConsistent P s'

  abbrev pub Removes : State K V → Option (State K V) → Type 0
  Removes s r = (s' : State K V) × (r ≡ some s') × IsConsistent P s' × AdmitsNone s s'
