-- ===== src/Base/Word.antt =====
-- Rust's fixed-width unsigned arithmetic over the native numbers: `wrapping_*` and `saturating_*`.
use Prim.Native.Nat.{ℕ, ◌+◌, ◌-◌, ◌*◌, ◌%◌, min}

-- The largest u8, u16, u32, u64 and i32.
abbrev pub u8_max : ℕ
u8_max = 0xff

abbrev pub u16_max : ℕ
u16_max = 0xffff

abbrev pub u32_max : ℕ
u32_max = 0xffff_ffff

abbrev pub u64_max : ℕ
u64_max = 0xffff_ffff_ffff_ffff

abbrev pub i32_max : ℕ
i32_max = 0x7fff_ffff

abbrev pub wrapping_add_u16 : ℕ → ℕ → ℕ
wrapping_add_u16 a b = (a + b) % 0x1_0000

abbrev pub wrapping_sub_u16 : ℕ → ℕ → ℕ
wrapping_sub_u16 a b = (a + 0x1_0000 - b) % 0x1_0000

abbrev pub wrapping_add_u32 : ℕ → ℕ → ℕ
wrapping_add_u32 a b = (a + b) % 0x1_0000_0000

abbrev pub wrapping_sub_u32 : ℕ → ℕ → ℕ
wrapping_sub_u32 a b = (a + 0x1_0000_0000 - b) % 0x1_0000_0000

abbrev pub wrapping_add_u64 : ℕ → ℕ → ℕ
wrapping_add_u64 a b = (a + b) % 0x1_0000_0000_0000_0000

abbrev pub wrapping_mul_u64 : ℕ → ℕ → ℕ
wrapping_mul_u64 a b = a * b % 0x1_0000_0000_0000_0000

abbrev pub saturating_add_u64 : ℕ → ℕ → ℕ
saturating_add_u64 a b = min (a + b) u64_max

-- `saturating_sub` of every width: the native subtraction stops at 0 as it does.
abbrev pub saturating_sub : ℕ → ℕ → ℕ
saturating_sub a b = a - b
