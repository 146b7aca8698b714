-- ===== src/Bitstream/Words/Laws.antt =====
-- The word operations as arithmetic, where the shift amounts are below the width.
use msdelta.Base.{ℕ, ◌+◌, ◌-◌, ◌*◌, ◌/◌, ◌%◌, ◌^◌, ◌≤◌, ◌<◌, ◌≡◌, max, bit_and, bit_or, arith}
use msdelta.Base.Bits.{two-pow-pos, two-pow_mono, mod-two-pow-add, bit_and_mask, bit_or_window}
use msdelta.Bitstream.Words.{shl64, shr64, mask64}
use mathlib.Core.Path.{subst}
use native.Mathlib.Nat.{mod-eq_of_lt, mul-mod_left, mul-div_left}

pub shr64_lem : (x s : ℕ) → s < 64 → shr64 x s ≡ x / 2 ^ s
unfolding shr64
shr64_lem x s h = let e : s % 64 ≡ s = omega arith in rw e

pub shl64_lem : (x s m : ℕ) → 0 < m → s + m ≡ 64 → shl64 x s ≡ x % 2 ^ m * 2 ^ s
unfolding shl64
shl64_lem x s m h e =
    let amount : s % 64 ≡ s = omega arith in
    let split : x * 2 ^ s % 2 ^ (s + m) ≡ 0 + 2 ^ s * (x % 2 ^ m) =
      rw (mod-two-pow-add, mul-mod_left, mul-div_left _ (two-pow-pos s)) (omega arith) in
    rw amount (subst (λ (t : ℕ). x * 2 ^ s % 2 ^ t ≡ x % 2 ^ m * 2 ^ s) e (omega (arith, split)))

-- `1u64 << k`
pub one-shl64 : (k : ℕ) → k < 64 → shl64 1 k ≡ 2 ^ k
one-shl64 k h =
    let one : 1 % 2 ^ (64 - k) ≡ 1 =
      mod-eq_of_lt (omega (arith, two-pow_mono 1 (64 - k) (omega arith))) in
    rw (shl64_lem 1 k (64 - k) (omega arith) (omega arith), one) (omega arith)

pub mask64_lem : (n : ℕ) → n < 64 → mask64 n ≡ 2 ^ n - 1
unfolding mask64
mask64_lem n h = rw (one-shl64 n h)

pub bit_and-mask64 : (x n : ℕ) → n < 64 → bit_and x (mask64 n) ≡ x % 2 ^ n
bit_and-mask64 x n h = rw (mask64_lem n h) (bit_and_mask n x)

-- Loading `w`, whose low bits are the stream's next ones, at bit `b` of an accumulator.
pub load64 :
    (b k v w t : ℕ)
    → b ≤ k
    → k ≤ 64
    → b < 64
    → w % 2 ^ (64 - b) ≡ v / 2 ^ b % 2 ^ t
    → bit_or (v % 2 ^ k) (shl64 w b) ≡ v % 2 ^ max k (b + t)
load64 b k v w t hb hk hl e =
    rw (shl64_lem w b (64 - b) (omega arith) (omega arith), e)
      (bit_or_window b k t _ v hb (omega arith))
