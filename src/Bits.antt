-- ===== src/Bits.antt =====
-- The bit and field macros of Include/oskal/common.h, on 64-bit words.
pub mod Laws
pub mod Fields
use cr_dk.Base.{ℕ, zero, suc, ◌+◌, ◌-◌, ◌*◌, ◌/◌, ◌%◌, ◌^◌, bit_and, bit_or, ◌==◌, if◌then◌else◌}

-- A value stored in a UINT32.
abbrev pub u32 : ℕ → ℕ
u32 x = x % 2 ^ 32

abbrev pub u16 : ℕ → ℕ
u16 x = x % 2 ^ 16

abbrev pub u64 : ℕ → ℕ
u64 x = x % 2 ^ 64

-- `BIT(x)`: 1ULL shifted left.
unfoldable pub bit : ℕ → ℕ
bit x = 2 ^ x % 2 ^ 64

-- `~(unsigned long long)(x)`.
unfoldable pub complement : ℕ → ℕ
complement x = 2 ^ 64 - 1 - x

-- `GEN_MSK(high, low)`; the subtractions wrap at 64 bits.
unfoldable pub gen_msk : ℕ → ℕ → ℕ
unfolding bit complement
gen_msk high low =
    bit_and ((bit (high + 1) + 2 ^ 64 - 1) % 2 ^ 64) (complement ((bit low + 2 ^ 64 - 1) % 2 ^ 64))

unfoldable pub set_bits : ℕ → ℕ → ℕ
set_bits val mask = bit_or val mask

unfoldable pub clr_bits : ℕ → ℕ → ℕ
unfolding complement
clr_bits val mask = bit_and val (complement mask)

-- Trailing zeros of a word of `n` bits: `n` of zero.
ctz_from : ℕ → ℕ → ℕ
ctz_from zero x = 0
ctz_from (suc n) x = if x % 2 == 1 then 0 else suc (ctz_from n (x / 2))

-- `__ctzll`, 64 of zero.
unfoldable pub ctz : ℕ → ℕ
unfolding ctz_from
ctz x = ctz_from 64 x

-- `__ffs`, 0 of zero.
unfoldable pub ffs : ℕ → ℕ
unfolding ctz
ffs x = if x == 0 then 0 else ctz x + 1

-- `SET_FIELD(val, mask)`; the shift drops what leaves 64 bits.
unfoldable pub set_field : ℕ → ℕ → ℕ
unfolding ctz
set_field val mask = bit_and (val * 2 ^ ctz mask % 2 ^ 64) mask

-- `GET_FIELD(val, mask)`.
unfoldable pub get_field : ℕ → ℕ → ℕ
unfolding ffs
get_field val mask = bit_and val mask / 2 ^ (ffs mask - 1)
