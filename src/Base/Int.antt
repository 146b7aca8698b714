-- ===== src/Base/Int.antt =====
-- Signed integers over the native numbers, and the 64-bit patterns that stand for them.
use msdelta.Base.Tests.{ltb, leb, ◌==◌, if◌then◌else◌, le_cases, le→leb, lt→leb, eq→==, ==→eq}
use Prim.Native.Nat.{ℕ, suc, ◌+◌, ◌-◌, ◌%◌, ◌^◌, ◌≤◌, ◌<◌}
use mathlib.Core.Path.{◌≡◌, refl, ap}
use mathlib.Core.Logic.{◌⊎◌, inl, inr}
use mathlib.Core.Bool.{Bool, true, false}
use native.Mathlib.Omega.{arith}

-- `negsuc n` is -(n + 1).
pub data ℤ : Type 0 where
  pos : ℕ → ℤ
  negsuc : ℕ → ℤ

abbrev pub pos_part : ℤ → ℕ
pos_part (pos n) = n
pos_part (negsuc n) = 0

abbrev pub neg_part : ℤ → ℕ
neg_part (pos n) = 0
neg_part (negsuc n) = suc n

abbrev pub sub_ℕ : ℕ → ℕ → ℤ
sub_ℕ a b = if leb b a then pos (a - b) else negsuc (b - a - 1)

infixl 65 ◌+ℤ◌ ◌-ℤ◌
infix 50 ◌≤ℤ◌ ◌<ℤ◌
unfoldable pub ◌+ℤ◌ : ℤ → ℤ → ℤ
a +ℤ b = sub_ℕ (pos_part a + pos_part b) (neg_part a + neg_part b)

unfoldable pub ◌-ℤ◌ : ℤ → ℤ → ℤ
a -ℤ b = sub_ℕ (pos_part a + neg_part b) (neg_part a + pos_part b)

abbrev pub ◌≤ℤ◌ : ℤ → ℤ → Type 0
a ≤ℤ b = pos_part a + neg_part b ≤ pos_part b + neg_part a

abbrev pub ◌<ℤ◌ : ℤ → ℤ → Type 0
a <ℤ b = pos_part a + neg_part b < pos_part b + neg_part a

abbrev pub ltb_ℤ : ℤ → ℤ → Bool
ltb_ℤ a b = ltb (pos_part a + neg_part b) (pos_part b + neg_part a)

-- `v as i64` of a u64, and `v as u64` of an i64.
unfoldable pub as_i64 : ℕ → ℤ
as_i64 v = if ltb v (2 ^ 63) then pos v else negsuc (2 ^ 64 - 1 - v)

unfoldable pub as_u64 : ℤ → ℕ
as_u64 (pos n) = n % 2 ^ 64
as_u64 (negsuc n) = 2 ^ 64 - 1 - n % 2 ^ 64

-- The values that an i64 can hold.
abbrev pub IsI64 : ℤ → Type 0
IsI64 (pos n) = n < 2 ^ 63
IsI64 (negsuc n) = n < 2 ^ 63

-- The values that are at least 0.
abbrev pub IsNonneg : ℤ → Type 0
IsNonneg v = neg_part v ≡ 0

pub as_u64-lt : (v : ℤ) → as_u64 v < 2 ^ 64
unfolding as_u64
as_u64-lt (pos n) = omega arith
as_u64-lt (negsuc n) = omega arith

pub as_i64-as_u64 : (v : ℤ) → IsI64 v → as_i64 (as_u64 v) ≡ v
unfolding as_u64 as_i64
as_i64-as_u64 (pos n) h = ground arith
as_i64-as_u64 (negsuc n) h = ground arith

-- `v as u32` and `v as i32` of an i64.
unfoldable pub as_u32 : ℤ → ℕ
as_u32 v = as_u64 v % 2 ^ 32

unfoldable pub as_i32 : ℤ → ℤ
as_i32 v = let u = as_u32 v in if ltb u (2 ^ 31) then pos u else negsuc (2 ^ 32 - 1 - u)

-- The values that an i32 can hold.
abbrev pub IsI32 : ℤ → Type 0
IsI32 (pos n) = n < 2 ^ 31
IsI32 (negsuc n) = n < 2 ^ 31

pub as_i32-id : (v : ℤ) → IsI32 v → as_i32 v ≡ v
unfolding as_u64 as_u32 as_i32
as_i32-id (pos n) h = ground arith
as_i32-id (negsuc n) h = ground arith

-- The difference that `sub_ℕ` stands for.
pub sub_ℕ-balance : (a b : ℕ) → pos_part (sub_ℕ a b) + b ≡ a + neg_part (sub_ℕ a b)
sub_ℕ-balance a b = elim (le_cases b a) [
  | inl below ↦ rw (le→leb below) (omega arith)
  | inr above ↦ rw (lt→leb above) (omega arith)
]

-- Integers of one balance are one.
pub balance-injective : (x y : ℤ) → pos_part x + neg_part y ≡ pos_part y + neg_part x → x ≡ y
balance-injective (pos a) (pos b) e = ap pos (omega (arith, e))
balance-injective (pos a) (negsuc b) e = absurd (omega (arith, e))
balance-injective (negsuc a) (pos b) e = absurd (omega (arith, e))
balance-injective (negsuc a) (negsuc b) e = ap negsuc (omega (arith, e))

pub +ℤ-balance :
    (x y : ℤ)
    → pos_part (x +ℤ y) + neg_part x + neg_part y ≡ pos_part x + pos_part y + neg_part (x +ℤ y)
unfolding ◌+ℤ◌
+ℤ-balance x y = omega (arith, sub_ℕ-balance (pos_part x + pos_part y) (neg_part x + neg_part y))

pub -ℤ-balance :
    (x y : ℤ)
    → pos_part (x -ℤ y) + neg_part x + pos_part y ≡ pos_part x + neg_part y + neg_part (x -ℤ y)
unfolding ◌-ℤ◌
-ℤ-balance x y = omega (arith, sub_ℕ-balance (pos_part x + neg_part y) (neg_part x + pos_part y))

-- One of the parts is 0.
pub one_part : (x : ℤ) → (pos_part x ≡ 0) ⊎ (neg_part x ≡ 0)
one_part (pos a) = inr refl
one_part (negsuc a) = inl refl

pub as_u64-pos : (n : ℕ) → n < 2 ^ 64 → as_u64 (pos n) ≡ n
unfolding as_u64
as_u64-pos n h = omega (arith, h)

unfoldable pub eq_ℤ : ℤ → ℤ → Bool
eq_ℤ (pos a) (pos b) = a == b
eq_ℤ (pos a) (negsuc b) = false
eq_ℤ (negsuc a) (pos b) = false
eq_ℤ (negsuc a) (negsuc b) = a == b

pub eq_ℤ→≡ : (x y : ℤ) → eq_ℤ x y ≡ true → x ≡ y
unfolding eq_ℤ
eq_ℤ→≡ (pos a) (pos b) e = ap pos (==→eq e)
eq_ℤ→≡ (pos a) (negsuc b) e = cc
eq_ℤ→≡ (negsuc a) (pos b) e = cc
eq_ℤ→≡ (negsuc a) (negsuc b) e = ap negsuc (==→eq e)

pub eq_ℤ_refl : (x : ℤ) → eq_ℤ x x ≡ true
unfolding eq_ℤ
eq_ℤ_refl (pos a) = eq→== {a = a} refl
eq_ℤ_refl (negsuc a) = eq→== {a = a} refl
