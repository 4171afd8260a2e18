-- ===== src/Tests/Client.antt =====
-- Tests of the client's operations of src/sync/cache.rs, and of runs of the cache.
use moka.Base.{
  ℕ, ◌≡◌, refl, subst, arith, List, [], ◌∷◌, ◌++◌, Bool, true, false, Option, none, some, All,
  ℕ_discrete,
}
use moka.EntryInfo.{unpack, expiration_state}
use moka.Cache.Expiry.{
  is_expired_by_per_entry_ttl, is_expired_entry_wo, is_expired_entry_ao, is_expired_by_tti,
  is_expired_by_ttl, is_invalid_entry,
}
use moka.Cache.{info_of, get, erase}
use moka.Cache.Invariant.{with_cache-IsConsistent}
use moka.Client.{Insertion, do_insert_with_hash, insert_with_hash}
use moka.Client.Reads.{scanning_get-do_insert_with_hash}
use mathlib.Core.Option.{some-injective}
use moka.Get.{scanning_get}
use moka.Concurrent.{ValueEntry}
use moka.Client.System.{
  System, Step, insert, invalidate, invalidate_all, lookup, send, read_log, write_log, timer, sweep,
  evict, to_list, run, take_step,
}
use moka.Client.Contents.{Contents, contents_at_end, AreAnswers}
use moka.Client.Refines.{IsSound, IsLegal, LegalAfter, AllLegal}
use moka.Client.Runs.{run-AreAnswers}
use moka.Tests.Maintenance.{config, start, start-IsConsistent, value}

abbrev insertion : ℕ → ℕ → ℕ → Insertion ℕ ℕ
insertion key value addr = record {
  key_hash = record { key = key; hash = key };
  value = value;
  weight = 3;
  ts = 5_000;
  now = 5_000;
  addr = addr;
  others = [];
}

abbrev fresh : System ℕ ℕ
fresh = record {
  config = config;
  state = record start { cache = [] };
  read_op_ch = [];
  write_op_ch = [];
  waiting = [];
}

abbrev nothing : Contents ℕ ℕ
nothing key = none

fresh-IsSound : IsSound nothing fresh
fresh-IsSound = record {
  state_sound = with_cache-IsConsistent start [] start-IsConsistent tt;
  reads_sound = tt;
  writes_sound = tt;
  waiting_sound = tt;
}

abbrev values_of : Option (System ℕ ℕ × List (Option ℕ)) → List (Option ℕ)
values_of none = []
values_of (some (y, values)) = values

-- The calls of the clients, with an update, a removal and a lookup after the time to live.
abbrev calls : List (Step ℕ ℕ)
calls =
    insert (insertion 1 100 1)
    ∷ insert (insertion 2 200 2)
    ∷ lookup 1 1 5_100 []
    ∷ send 0
    ∷ insert (insertion 1 101 3)
    ∷ lookup 1 1 5_200 []
    ∷ invalidate 2 true 5_200
    ∷ lookup 2 2 5_200 []
    ∷ lookup 1 1 1_005_000 []
    ∷ []

answers :
    values_of (run ℕ_discrete none none fresh calls)
    ≡ none ∷ none ∷ some 100 ∷ none ∷ none ∷ some 101 ∷ some 200 ∷ none ∷ none ∷ []
unfolding run get ℕ_discrete erase is_expired_by_per_entry_ttl unpack is_expired_entry_wo
    is_expired_entry_ao is_expired_by_tti
answers = refl

-- Where there is no `Expiry`, only insertions ask for something.
abbrev is_free : Step ℕ ℕ → Bool
is_free (insert x) = false
is_free x = true

abbrev AreFree : List (Step ℕ ℕ) → Type 0
AreFree xs = All (λ x. is_free x ≡ true) xs

always :
    (legal : System ℕ ℕ → Type 0)
    → ((y : System ℕ ℕ) → legal y)
    → (r : Option (System ℕ ℕ × Option ℕ)) → LegalAfter ℕ_discrete none none legal r
always legal h none = tt
always legal h (some (y, value)) = h y

free-IsLegal :
    (x : Step ℕ ℕ) → is_free x ≡ true → (y : System ℕ ℕ) → IsLegal ℕ_discrete none none y x
free-IsLegal (insert x) h y = cc
free-IsLegal (invalidate key need_value now) h y = tt
free-IsLegal (invalidate_all now) h y = tt
free-IsLegal (lookup key hash now others) h y = λ n e g. absurd (n refl)
free-IsLegal (send n) h y = tt
free-IsLegal (read_log n) h y = tt
free-IsLegal (write_log n) h y = tt
free-IsLegal (timer i now) h y = tt
free-IsLegal (sweep batch_size now) h y = tt
free-IsLegal (evict batch_size) h y = tt

free-AllLegal :
    (xs : List (Step ℕ ℕ)) → AreFree xs → (y : System ℕ ℕ) → AllLegal ℕ_discrete none none y xs
free-AllLegal [] h y = tt
free-AllLegal (x ∷ xs) h y = (
  free-IsLegal x h.0 y,
  always (λ z. AllLegal ℕ_discrete none none z xs) (free-AllLegal xs h.1)
      (take_step ℕ_discrete none none y x),
)

abbrev later_steps : List (Step ℕ ℕ)
later_steps =
    lookup 1 1 5_100 []
    ∷ send 1
    ∷ send 0
    ∷ write_log 2
    ∷ read_log 1
    ∷ invalidate 2 true 5_200
    ∷ invalidate_all 5_300
    ∷ lookup 1 1 5_400 []
    ∷ send 0
    ∷ sweep 10 9_000
    ∷ write_log 1
    ∷ evict 10
    ∷ []

abbrev steps : List (Step ℕ ℕ)
steps = insert (insertion 1 100 1) ∷ insert (insertion 2 200 2) ∷ later_steps

-- The system after an insertion.
abbrev inserted : System ℕ ℕ → Insertion ℕ ℕ → System ℕ ℕ
inserted y x =
    let (s, op) = insert_with_hash y.config none ℕ_discrete y.state x in
    record y { state = s; waiting = to_list op ++ y.waiting }

steps-AllLegal : AllLegal ℕ_discrete none none fresh steps
unfolding take_step get ℕ_discrete
steps-AllLegal = (
  (refl, refl),
  (
    (refl, refl),
    free-AllLegal later_steps
        (
          refl,
          (
            refl,
            (refl, (refl, (refl, (refl, (refl, (refl, (refl, (refl, (refl, (refl, tt)))))))))),
          ),
        )
        (inserted (inserted fresh (insertion 1 100 1)) (insertion 2 200 2)),
  ),
)

run-AreAnswers_example :
    (y1 : System ℕ ℕ) × (values : List (Option ℕ)) × (run ℕ_discrete none none fresh steps
      ≡ some (y1, values))
    × IsSound (contents_at_end ℕ_discrete false nothing steps) y1
    × AreAnswers ℕ_discrete false nothing steps values
run-AreAnswers_example =
    run-AreAnswers ℕ_discrete none none nothing fresh steps fresh-IsSound steps-AllLegal

-- The second insertion takes the place of an entry that expires on its own at 8,192 ns.
unexpired :
    (e : ValueEntry ℕ)
    → get ℕ_discrete 2 start.cache ≡ some e
    → is_expired_by_per_entry_ttl (info_of start e) 5_500 ≡ false
unfolding get ℕ_discrete is_expired_by_per_entry_ttl unpack expiration_state
unexpired e h =
    subst (λ y. is_expired_by_per_entry_ttl (info_of start y) 5_500 ≡ false)
      (some-injective (value 2) e h) refl

scanning_get-do_insert_with_hash_example :
    scanning_get ℕ_discrete config none
      (do_insert_with_hash config none ℕ_discrete start (insertion 2 200 9)).0
      2
      5_500
    ≡ some 200
unfolding is_expired_by_ttl is_expired_by_tti is_invalid_entry
scanning_get-do_insert_with_hash_example =
    scanning_get-do_insert_with_hash ℕ_discrete config start (insertion 2 200 9) 5_500 (omega arith)
      refl refl refl unexpired
