-- ===== src/Base/Bits/Step.antt =====
-- One binary digit of `&` and `|`: what the native operations do to the lowest digit.
use Prim.Native.Nat.{ℕ, zero, suc, ◌+◌, ◌*◌, ◌/◌, ◌%◌, ◌≤◌, min, max, bit_and, bit_or, digits}
use Prim.Native.Nat.{bit_and-bitwise, bit_or-bitwise}
use mathlib.Core.Path.{◌≡◌, refl, ap}
use native.Mathlib.Omega.{arith}

-- Any fuel that is at least the first operand gives the same digits.
module _ (last : ℕ → ℕ) (op : ℕ → ℕ → ℕ) where
  digits_enough : (j k x y : ℕ) → x ≤ j → x ≤ k → digits last op j x y ≡ digits last op k x y
  digits_enough zero zero x y p q = refl
  digits_enough zero (suc k) zero y p q = refl
  digits_enough zero (suc k) (suc x) y p q = absurd (omega arith)
  digits_enough (suc j) zero zero y p q = refl
  digits_enough (suc j) zero (suc x) y p q = absurd (omega arith)
  digits_enough (suc j) (suc k) zero y p q = refl
  digits_enough (suc j) (suc k) (suc x) y p q =
      ap (λ (t : ℕ). t * 2 + op (suc x % 2) (y % 2))
        (digits_enough j k (suc x / 2) (y / 2) (omega arith) (omega arith))

pub zero-bit_or : (y : ℕ) → bit_or 0 y ≡ y
zero-bit_or y = bit_or-bitwise 0 y

zero-bit_and : (y : ℕ) → bit_and 0 y ≡ 0
zero-bit_and y = bit_and-bitwise 0 y

pub bit_or_step : (x y : ℕ) → bit_or x y ≡ bit_or (x / 2) (y / 2) * 2 + max (x % 2) (y % 2)
bit_or_step zero y = omega (arith, zero-bit_or y, zero-bit_or (y / 2))
bit_or_step (suc x) y = omega (
  arith,
  bit_or-bitwise (suc x) y,
  bit_or-bitwise (suc x / 2) (y / 2),
  digits_enough (λ t. t) max x (suc x / 2) (suc x / 2) (y / 2) (omega arith) (omega arith),
)

pub bit_and_step : (x y : ℕ) → bit_and x y ≡ bit_and (x / 2) (y / 2) * 2 + min (x % 2) (y % 2)
bit_and_step zero y = omega (arith, zero-bit_and y, zero-bit_and (y / 2))
bit_and_step (suc x) y = omega (
  arith,
  bit_and-bitwise (suc x) y,
  bit_and-bitwise (suc x / 2) (y / 2),
  digits_enough (λ t. 0) min x (suc x / 2) (suc x / 2) (y / 2) (omega arith) (omega arith),
)

or-zero_below : (k x : ℕ) → x ≤ k → bit_or x 0 ≡ x
or-zero_below k zero h = refl
or-zero_below zero (suc x) h = absurd (omega arith)
or-zero_below (suc k) (suc x) h =
    omega (arith, bit_or_step (suc x) 0, or-zero_below k (suc x / 2) (omega arith))

pub bit_or-zero : (x : ℕ) → bit_or x 0 ≡ x
bit_or-zero x = or-zero_below x x (omega arith)

and-zero_below : (k x : ℕ) → x ≤ k → bit_and x 0 ≡ 0
and-zero_below k zero h = refl
and-zero_below zero (suc x) h = absurd (omega arith)
and-zero_below (suc k) (suc x) h =
    omega (arith, bit_and_step (suc x) 0, and-zero_below k (suc x / 2) (omega arith))

pub bit_and-zero : (x : ℕ) → bit_and x 0 ≡ 0
bit_and-zero x = and-zero_below x x (omega arith)
