-- ===== src/EntryInfo.antt =====
-- src/common/concurrent/entry_info.rs, with `KeyHash` of src/common/concurrent.rs: the cell that the
-- hash table and the policies share for an entry. Each atomic is its value; a compare-and-exchange
-- loop takes the list of the values that other threads store between its attempts.
pub mod Generations
pub mod Expiration
use moka.Base.{
  ℕ, ◌-◌, ◌/◌, ◌<◌, List, [], ◌∷◌, Bool, true, false, not, ◌||◌, Option, none, some, bit_and,
  bit_or, ltb, leb, ◌==◌, if◌then◌else◌,
}
use moka.Base.Word.{u16_max, wrapping_add_u16, wrapping_sub_u16, wrapping_add_u32}
use moka.Time
use moka.Time.{Instant}

pub record KeyHash {ℓ} (K : Type ℓ) : Type ℓ where
  pub key : K
  pub hash : ℕ

pub record EntryInfo {ℓ} (K : Type ℓ) : Type ℓ where
  pub key_hash : KeyHash K
  pub is_admitted : Bool
  pub is_retired : Bool
  pub entry_gen : ℕ
  pub policy_gen : ℕ
  pub expiration_state : ℕ
  pub last_accessed : ℕ
  pub last_modified : ℕ
  pub policy_weight : ℕ

abbrev pub gen_mask : ℕ
gen_mask = 0xfff

abbrev pub time_mask : ℕ
time_mask = 0xffff_ffff_ffff_f000

-- The test of `set_policy_gen` for leaving the loop with nothing stored.
unfoldable pub is_behind : ℕ → ℕ → Bool
is_behind current value = leb value current || ltb (u16_max / 2) (wrapping_sub_u16 value current)

-- The loop of `set_policy_gen`: the value of `policy_gen` when it ends.
unfoldable pub policy_gen_loop : List ℕ → ℕ → ℕ → ℕ
policy_gen_loop [] value current = if is_behind current value then current else value
policy_gen_loop (stored ∷ others) value current =
    let again = policy_gen_loop others value stored in
    if is_behind current value then current else again

-- The packed state that `set_expiration_time` stores for a time and a generation.
unfoldable pub pack : Option Instant → ℕ → ℕ
pack none gen = bit_or time_mask gen
pack (some t) gen =
    let nanos = bit_and t time_mask in
    bit_or (if nanos == time_mask then time_mask - 0x1000 else nanos) gen

unfoldable pub next_gen : ℕ → ℕ
next_gen packed = bit_and (wrapping_add_u32 (bit_and packed gen_mask) 1) gen_mask

-- The loop of `set_expiration_time`: the packed state that it leaves, and the new generation.
unfoldable pub expiration_loop : List ℕ → Option Instant → ℕ → ℕ × ℕ
expiration_loop [] time packed = let gen = next_gen packed in (pack time gen, gen)
expiration_loop (stored ∷ others) time packed = expiration_loop others time stored

unfoldable pub unpack : ℕ → Option Instant × ℕ
unpack packed =
    let time_nanos = bit_and packed time_mask in
    let gen = bit_and packed gen_mask in
    if time_nanos == time_mask then (none, gen) else (some time_nanos, gen)

module _ {ℓ} {K : Type ℓ} where
  unfoldable pub new : KeyHash K → Instant → ℕ → EntryInfo K
  new key_hash timestamp policy_weight = record {
    key_hash = key_hash;
    is_admitted = false;
    is_retired = false;
    entry_gen = 1;
    policy_gen = 0;
    expiration_state = 0xffff_ffff_ffff_f000;
    last_accessed = timestamp;
    last_modified = timestamp;
    policy_weight = policy_weight;
  }

  abbrev pub set_admitted : EntryInfo K → Bool → EntryInfo K
  set_admitted e value = record e { is_admitted = value }

  abbrev pub is_alive : EntryInfo K → Bool
  is_alive e = not e.is_retired

  abbrev pub retire : EntryInfo K → EntryInfo K
  retire e = record e { is_retired = true }

  abbrev pub is_dirty : EntryInfo K → Bool
  is_dirty e = not (e.entry_gen == e.policy_gen)

  -- The entry, and the new generation.
  unfoldable pub incr_entry_gen : EntryInfo K → EntryInfo K × ℕ
  incr_entry_gen e = let gen = wrapping_add_u16 e.entry_gen 1 in (record e { entry_gen = gen }, gen)

  unfoldable pub set_policy_gen : List ℕ → EntryInfo K → ℕ → EntryInfo K
  set_policy_gen others e value = record e {
    policy_gen = policy_gen_loop others value e.policy_gen;
  }

  abbrev pub set_policy_weight : EntryInfo K → ℕ → EntryInfo K
  set_policy_weight e size = record e { policy_weight = size }

  unfoldable pub expiration_state : EntryInfo K → Option Instant × ℕ
  expiration_state e = unpack e.expiration_state

  -- The entry, and the new expiry generation.
  unfoldable pub set_expiration_time : List ℕ → EntryInfo K → Option Instant → EntryInfo K × ℕ
  set_expiration_time others e time =
      let (packed, gen) = expiration_loop others time e.expiration_state in
      (record e { expiration_state = packed }, gen)

  abbrev pub last_accessed : EntryInfo K → Option Instant
  last_accessed e = Time.instant e.last_accessed

  abbrev pub set_last_accessed : EntryInfo K → Instant → EntryInfo K
  set_last_accessed e t = record e { last_accessed = Time.set_instant e.last_accessed t }

  abbrev pub last_modified : EntryInfo K → Option Instant
  last_modified e = Time.instant e.last_modified

  abbrev pub set_last_modified : EntryInfo K → Instant → EntryInfo K
  set_last_modified e t = record e { last_modified = Time.set_instant e.last_modified t }
