-- ===== src/Bitstream/Words.antt =====
-- The u32 and u64 operations that src/bitstream/mod.rs uses. A shift takes its amount modulo the
-- width, as a release build does.
pub mod Laws
pub mod Zeros
use msdelta.Base.{ℕ, zero, suc, ◌-◌, ◌*◌, ◌/◌, ◌%◌, ◌^◌, ◌==◌, if◌then◌else◌}

abbrev pub u32 : ℕ → ℕ
u32 x = x % 2 ^ 32

unfoldable pub shl64 : ℕ → ℕ → ℕ
shl64 x s = x * 2 ^ (s % 64) % 2 ^ 64

unfoldable pub shr64 : ℕ → ℕ → ℕ
shr64 x s = x / 2 ^ (s % 64)

-- `(1u64 << n) - 1`
unfoldable pub mask64 : ℕ → ℕ
unfolding shl64
mask64 n = shl64 1 n - 1

-- `trailing_zeros` of a word of `w` bits, which is `w` at 0.
unfoldable pub trailing_zeros : ℕ → ℕ → ℕ
trailing_zeros zero x = 0
trailing_zeros (suc w) x = if x % 2 == 1 then 0 else suc (trailing_zeros w (x / 2))

-- `leading_zeros` of a word of `w` bits, which is `w` at 0.
unfoldable pub leading_zeros : ℕ → ℕ → ℕ
leading_zeros zero x = 0
leading_zeros (suc w) x = if x / 2 ^ w % 2 == 1 then 0 else suc (leading_zeros w x)
