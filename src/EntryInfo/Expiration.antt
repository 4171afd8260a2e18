-- ===== src/EntryInfo/Expiration.antt =====
-- src/common/concurrent/entry_info.rs: the packed expiration time and expiry generation.
use native.Mathlib.Omega.{arith}
use moka.Base.{
  ℕ, ◌+◌, ◌-◌, ◌*◌, ◌/◌, ◌%◌, ◌^◌, ◌≤◌, ◌<◌, ◌≡◌, refl, ◌↔◌, List, [], ◌∷◌, Option, none, some,
  bit_and, bit_or, ◌==◌, if◌then◌else◌, length,
}
use moka.Base.Word.{u64_max}
use moka.Base.Bits.{bit_and-mask, bit_and-high, bit_or-low}
use moka.Time.{Instant}
use moka.EntryInfo.{
  EntryInfo, gen_mask, time_mask, pack, unpack, next_gen, expiration_loop, expiration_state,
  set_expiration_time,
}

-- The time that the upper 52 bits can hold: rounded down to 4,096 ns, and kept from the sentinel.
pub kept : Instant → Instant
kept t = if t / 4096 == 2 ^ 52 - 1 then (2 ^ 52 - 2) * 4096 else t / 4096 * 4096

pub kept_bounds : (t : Instant) → t < time_mask → (kept t ≤ t) × (t < kept t + 4096)
unfolding kept
kept_bounds t h = ground arith

gen_of : (packed : ℕ) → bit_and packed gen_mask ≡ packed % 4096
gen_of packed = bit_and-mask 12 packed

time_of : (packed : ℕ) → packed ≤ u64_max → bit_and packed time_mask ≡ packed / 4096 * 4096
time_of packed h =
    let e : packed / 4096 * 4096 + packed % 4096 ≡ packed = omega arith in
    let f = bit_and-high 12 (packed / 4096) (packed % 4096) 52 (omega arith) (omega arith) in
    rw e at f

join : (q gen : ℕ) → gen < 4096 → bit_or (q * 4096) gen ≡ q * 4096 + gen
join q gen h = bit_or-low 12 q gen h

next_gen_lem : (packed : ℕ) → next_gen packed ≡ (packed + 1) % 4096
unfolding next_gen
next_gen_lem packed = rw (gen_of, gen_of) (omega arith)

abbrev pub read_time : Option Instant → Option Instant
read_time none = none
read_time (some t) = some (kept t)

abbrev pub IsInstant : Option Instant → Type 0
IsInstant none = Unit {0}
IsInstant (some t) = t ≤ u64_max

unpack_joined :
    (q gen : ℕ)
    → q < 2 ^ 52
    → gen < 4096
    → unpack (q * 4096 + gen) ≡ (if q == 2 ^ 52 - 1 then (none, gen) else (some (q * 4096), gen))
unfolding unpack
unpack_joined q gen h g =
    let t = time_of (q * 4096 + gen) (omega arith) in
    let d : (q * 4096 + gen) / 4096 ≡ q = omega arith in
    let m : (q * 4096 + gen) % 4096 ≡ gen = omega arith in
    rw (t, gen_of (q * 4096 + gen), d, m) (ground arith)

-- What `pack` writes, `unpack` reads.
pub unpack-pack :
    (time : Option Instant) (gen : ℕ)
    → IsInstant time
    → gen < 4096
    → unpack (pack time gen) ≡ (read_time time, gen)
unfolding pack kept
unpack-pack none gen i h =
    rw (join (2 ^ 52 - 1) gen h, unpack_joined (2 ^ 52 - 1) gen (omega arith) h) refl
unpack-pack (some t) gen i h = rw (time_of t i) (
    ground (
      arith,
      join (t / 4096) gen h,
      join (2 ^ 52 - 2) gen h,
      unpack_joined (t / 4096) gen (omega arith) h,
      unpack_joined (2 ^ 52 - 2) gen (omega arith) h,
    ))

unpack_gen : (packed : ℕ) → (unpack packed).1 ≡ packed % 4096
unfolding unpack
unpack_gen packed = ground (arith, gen_of packed)

loop_gen-lt :
    (others : List ℕ) (time : Option Instant) (packed : ℕ)
    → (expiration_loop others time packed).1 < 4096
unfolding expiration_loop
loop_gen-lt [] time packed = rw next_gen_lem (omega arith)
loop_gen-lt (o ∷ others) time packed = loop_gen-lt others time o

unpack-loop :
    (others : List ℕ) (time : Option Instant) (packed : ℕ)
    → IsInstant time
    → unpack (expiration_loop others time packed).0
      ≡ (read_time time, (expiration_loop others time packed).1)
unfolding expiration_loop
unpack-loop [] time packed i = unpack-pack time (next_gen packed) i (rw next_gen_lem (omega arith))
unpack-loop (o ∷ others) time packed i = unpack-loop others time o i

abbrev pub AllInstants : List (Option Instant) → Type 0
AllInstants [] = Unit {0}
AllInstants (t ∷ ts) = IsInstant t × AllInstants ts

module _ {ℓ} {K : Type ℓ} where
  -- A reader gets back the time that was set, to the 4,096 ns that are kept, or none, with the
  -- generation that the setter was given, whatever other threads stored between the attempts.
  pub expiration_state-set_expiration_time :
      (others : List ℕ) (e : EntryInfo K) (time : Option Instant)
      → IsInstant time
      → let (e', gen) = set_expiration_time others e time in
        expiration_state e' ≡ (read_time time, gen)
  unfolding expiration_state set_expiration_time
  expiration_state-set_expiration_time others e time i =
      unpack-loop others time e.expiration_state i

  -- Setting one time after another.
  pub set_times : List (Option Instant) → EntryInfo K → EntryInfo K
  set_times [] e = e
  set_times (t ∷ ts) e = set_times ts (set_expiration_time [] e t).0

  set_once_gen :
      (e : EntryInfo K) (t : Option Instant)
      → IsInstant t
      → (expiration_state (set_expiration_time [] e t).0).1 ≡ ((expiration_state e).1 + 1) % 4096
  unfolding expiration_state set_expiration_time expiration_loop
  set_once_gen e t i =
      rw
        (
          unpack-pack t (next_gen e.expiration_state) i (rw next_gen_lem (omega arith)),
          next_gen_lem,
          unpack_gen,
        )
        (omega arith)

  set_times_gen :
      (ts : List (Option Instant)) (e : EntryInfo K)
      → AllInstants ts
      → (expiration_state (set_times ts e)).1 % 4096 ≡ ((expiration_state e).1 + length ts) % 4096
  unfolding set_times
  set_times_gen [] e i = omega arith
  set_times_gen (t ∷ ts) e i =
      omega (arith, set_once_gen e t i.0, set_times_gen ts (set_expiration_time [] e t).0 i.1)

  gen-lt : (e : EntryInfo K) → (expiration_state e).1 < 4096
  unfolding expiration_state
  gen-lt e = rw unpack_gen (omega arith)

  -- A generation noted before some updates is found unchanged after them exactly when their number
  -- is a multiple of 4,096: fewer than 4,096 updates, and at least one, are always noticed.
  pub stale_gen_iff :
      (ts : List (Option Instant)) (e : EntryInfo K)
      → AllInstants ts
      → ((expiration_state (set_times ts e)).1 ≡ (expiration_state e).1) ↔ (length ts % 4096 ≡ 0)
  stale_gen_iff ts e i =
      let a = set_times_gen ts e i in
      let b = gen-lt (set_times ts e) in let c = gen-lt e in (λ h. omega arith, λ h. omega arith)
