-- ===== src/Bsdiff/Seek.antt =====
-- The seek distances of a patch.
use msdelta.Base.{ℕ, ◌^◌, ◌≤◌, ◌<◌, ◌≡◌, inl, inr, arith}
use msdelta.Base.Int.{
  ℤ, pos, negsuc, pos_part, neg_part, as_i64-as_u64, balance-injective, +ℤ-balance, -ℤ-balance,
  one_part, IsI64, ◌+ℤ◌, ◌-ℤ◌,
}
use msdelta.Bsdiff.Control.{HasMagnitude}
use msdelta.Bsdiff.Patch.{wrap64}

-- Positions far from the ends of i64.
abbrev pub IsNear : ℤ → Type 0
IsNear (pos n) = n < 2 ^ 61
IsNear (negsuc n) = n < 2 ^ 61

near_parts : (x : ℤ) → IsNear x → (pos_part x < 2 ^ 61) × (neg_part x ≤ 2 ^ 61)
near_parts (pos n) h = (h, omega arith)
near_parts (negsuc n) h = (omega arith, omega (arith, h))

near-IsI64 : (x : ℤ) → IsNear x → IsI64 x
near-IsI64 (pos n) h = omega (arith, h)
near-IsI64 (negsuc n) h = omega (arith, h)

bounded-HasMagnitude : (x : ℤ) → pos_part x < 2 ^ 63 → neg_part x < 2 ^ 63 → HasMagnitude x
bounded-HasMagnitude (pos n) h k = h
bounded-HasMagnitude (negsuc n) h k = omega (arith, k)

exact : (p q k : ℤ) → p +ℤ ((q -ℤ (p +ℤ k)) +ℤ k) ≡ q
exact p q k = balance-injective _ q (
    omega (
      arith,
      +ℤ-balance p k,
      -ℤ-balance q (p +ℤ k),
      +ℤ-balance (q -ℤ (p +ℤ k)) k,
      +ℤ-balance p ((q -ℤ (p +ℤ k)) +ℤ k),
    ))

-- The seek that a block writes leads the decoder where the encoder went.
pub seek_back : (p q : ℤ) (k : ℕ) → IsNear q → wrap64 (p +ℤ ((q -ℤ (p +ℤ pos k)) +ℤ pos k)) ≡ q
unfolding wrap64
seek_back p q k h = rw (exact p q (pos k)) (as_i64-as_u64 q (near-IsI64 q h))

pub seek-HasMagnitude :
    (p q : ℤ) (k : ℕ) → IsNear p → IsNear q → k < 2 ^ 31 → HasMagnitude (q -ℤ (p +ℤ pos k))
seek-HasMagnitude p q k hp hq hk =
    let x : ℤ = q -ℤ (p +ℤ pos k) in
    let (p1, p2) = near_parts p hp in
    let (q1, q2) = near_parts q hq in
    let sum = +ℤ-balance p (pos k) in
    let diff = -ℤ-balance q (p +ℤ pos k) in
    elim (one_part x) [
      | inl z ↦
          bounded-HasMagnitude x (omega (arith, z))
            (omega (arith, z, p1, p2, q1, q2, sum, diff, hk))
      | inr z ↦
          bounded-HasMagnitude x (omega (arith, z, p1, p2, q1, q2, sum, diff, hk))
            (omega (arith, z))
    ]
