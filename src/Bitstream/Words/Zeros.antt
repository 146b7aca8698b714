-- ===== src/Bitstream/Words/Zeros.antt =====
-- What `trailing_zeros` and `leading_zeros` count.
use msdelta.Base.{
  ℕ, zero, suc, ◌-◌, ◌/◌, ◌%◌, ◌^◌, ◌≤◌, ◌<◌, ◌≡◌, ◌≢◌, inl, inr, ap, arith, le_cases, eq→==, ne→==,
}
use msdelta.Base.Bits.{two-pow-suc, mod-two-pow-suc}
use native.Mathlib.Nat.{div-eq_of_lt, div-eq_of_lt-le}
use msdelta.Bitstream.Words.{trailing_zeros, leading_zeros}

-- A word whose lowest bit that is set is bit `k`.
pub trailing_zeros_lem : (w k x : ℕ) → x % 2 ^ suc k ≡ 2 ^ k → k < w → trailing_zeros w x ≡ k
unfolding trailing_zeros
trailing_zeros_lem zero k x e h = absurd (omega arith)
trailing_zeros_lem (suc w) zero x e h = let odd : x % 2 ≡ 1 = e in rw (eq→== odd)
trailing_zeros_lem (suc w) (suc k) x e h =
    let even : x % 2 ≢ 1 = omega (arith, mod-two-pow-suc x (suc k), two-pow-suc k, e) in
    let half : x / 2 % 2 ^ suc k ≡ 2 ^ k =
      omega (arith, mod-two-pow-suc x (suc k), two-pow-suc k, e) in
    rw (ne→== even) (ap suc (trailing_zeros_lem w k (x / 2) half (omega arith)))

pub leading_zeros-le : (w x : ℕ) → leading_zeros w x ≤ w
unfolding leading_zeros
leading_zeros-le zero x = omega arith
leading_zeros-le (suc w) x = ground (arith, leading_zeros-le w x)

-- The highest bit of a word of `w + 1` bits.
top_set : (w x : ℕ) → x < 2 ^ suc w → 2 ^ w ≤ x → x / 2 ^ w % 2 ≡ 1
top_set w x h le =
    let q : x / 2 ^ w ≡ 1 =
      div-eq_of_lt-le (2 ^ w) (omega (arith, le)) (omega (arith, h, two-pow-suc w)) in
    rw q (omega arith)

top_clear : (w x : ℕ) → x < 2 ^ w → x / 2 ^ w % 2 ≢ 1
top_clear w x h = omega (arith, div-eq_of_lt h)

-- A word is below the power of two that its leading zeros leave.
pub lt-leading_zeros : (w x : ℕ) → x < 2 ^ w → x < 2 ^ (w - leading_zeros w x)
unfolding leading_zeros
lt-leading_zeros zero x h = h
lt-leading_zeros (suc w) x h = elim (le_cases (2 ^ w) x) [
  | inl set ↦ let e : suc w - 0 ≡ suc w = omega arith in rw (eq→== (top_set w x h set), e) h
  | inr clear ↦
      let e : suc w - suc (leading_zeros w x) ≡ w - leading_zeros w x = omega arith in
      rw (ne→== (top_clear w x clear), e) (lt-leading_zeros w x clear)
]

-- It is at least the half of that power, unless it is 0.
pub leading_zeros-lower :
    (w x : ℕ) → x < 2 ^ w → 0 < x → (leading_zeros w x < w) × (2 ^ (w - leading_zeros w x - 1) ≤ x)
unfolding leading_zeros
leading_zeros-lower zero x h more = absurd (omega arith)
leading_zeros-lower (suc w) x h more = elim (le_cases (2 ^ w) x) [
  | inl set ↦
      let e : suc w - 0 - 1 ≡ w = omega arith in
      rw (eq→== (top_set w x h set), e) (omega arith, set)
  | inr clear ↦
      let (l, b) = leading_zeros-lower w x clear more in
      let e : suc w - suc (leading_zeros w x) - 1 ≡ w - leading_zeros w x - 1 = omega arith in
      rw (ne→== (top_clear w x clear), e) (omega (arith, l), b)
]
