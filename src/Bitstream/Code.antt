-- ===== src/Bitstream/Code.antt =====
-- The wire format of the numbers: the bits of each encoding as one number, lowest bit first.
use msdelta.Base.{
  List, length, ℕ, zero, suc, ◌+◌, ◌-◌, ◌*◌, ◌/◌, ◌%◌, ◌^◌, ◌≤◌, ◌<◌, ◌≡◌, inl, inr, ap, ◌∙◌, arith,
  ltb, if◌then◌else◌, le_cases, lt→ltb, le→ltb,
}
use msdelta.Base.Bytes.{le_num}
use msdelta.Base.Bits.{two-pow-add, two-pow-pos}
use msdelta.Bitstream.Words.{leading_zeros}

-- A string of `width` bits.
pub record Code : Type 0 where
  pub value : ℕ
  pub width : ℕ

-- One string behind another.
unfoldable pub join : Code → Code → Code
join a b = record { value = a.value + b.value * 2 ^ a.width; width = a.width + b.width }

-- `k` zeros and a one, then the `n` low bits of a number.
unfoldable pub prefixed : ℕ → ℕ → ℕ → Code
prefixed k n v = record { value = 2 ^ k + v * 2 ^ (k + 1); width = k + 1 + n }

-- The groups of four bits that a number takes behind its lowest one, `n` at most.
unfoldable pub groups_behind : ℕ → ℕ → ℕ
groups_behind zero v = 0
groups_behind (suc n) v = let rest = groups_behind n (v / 16) in if ltb v 16 then 0 else rest + 1

-- The same for a number of 64 bits; the encoding has as many zeros in front.
unfoldable pub nibbles_of : ℕ → ℕ
nibbles_of v = groups_behind 15 v

four_more : (a b : ℕ) → a ≡ b + 4 → 2 ^ a ≡ 2 ^ b * 16
four_more a b e = ap (λ (t : ℕ). 2 ^ t) e ∙ two-pow-add b 4

groups_behind_fit :
    (n v : ℕ)
    → v < 2 ^ ((n + 1) * 4)
    → (groups_behind n v ≤ n) × (v < 2 ^ ((groups_behind n v + 1) * 4))
unfolding groups_behind
groups_behind_fit zero v lt = (omega arith, lt)
groups_behind_fit (suc n) v lt = elim (le_cases 16 v) [
  | inl more ↦
      let (few, fits) =
        groups_behind_fit n (v / 16)
          (omega (arith, lt, four_more ((suc n + 1) * 4) ((n + 1) * 4) (omega arith))) in
      rw (le→ltb more) (
        omega (arith, few),
        omega (
          arith,
          fits,
          four_more ((groups_behind n (v / 16) + 1 + 1) * 4) ((groups_behind n (v / 16) + 1) * 4)
              (omega arith),
        ),
      )
  | inr one ↦ rw (lt→ltb one) (omega arith, omega (arith, one))
]

groups_behind_unique :
    (n k v : ℕ) → k ≤ n → 2 ^ (k * 4) ≤ v → v < 2 ^ ((k + 1) * 4) → groups_behind n v ≡ k
unfolding groups_behind
groups_behind_unique zero k v le lo hi = omega (arith, le)
groups_behind_unique (suc n) zero v le lo hi =
    let one : v < 16 = omega (arith, hi) in rw (lt→ltb one)
groups_behind_unique (suc n) (suc k) v le lo hi =
    let more : 16 ≤ v =
      omega (arith, lo, four_more (suc k * 4) (k * 4) (omega arith), two-pow-pos (k * 4)) in
    let low : 2 ^ (k * 4) ≤ v / 16 =
      omega (arith, lo, four_more (suc k * 4) (k * 4) (omega arith)) in
    let high : v / 16 < 2 ^ ((k + 1) * 4) =
      omega (arith, hi, four_more ((suc k + 1) * 4) ((k + 1) * 4) (omega arith)) in
    rw (le→ltb more) (omega (arith, groups_behind_unique n k (v / 16) (omega (arith, le)) low high))

-- The groups of four bits that an encoding holds are enough for the number.
pub nibbles_of_fit : (v : ℕ) → v < 2 ^ 64 → (nibbles_of v ≤ 15) × (v < 2 ^ ((nibbles_of v + 1) * 4))
unfolding nibbles_of
nibbles_of_fit v lt = groups_behind_fit 15 v lt

-- They are as few as hold it.
pub nibbles_of_unique :
    (k v : ℕ) → k ≤ 15 → 2 ^ (k * 4) ≤ v → v < 2 ^ ((k + 1) * 4) → nibbles_of v ≡ k
unfolding nibbles_of
nibbles_of_unique k v le lo hi = groups_behind_unique 15 k v le lo hi

unfoldable pub i64_code : ℕ → Code
unfolding prefixed
i64_code v = prefixed (nibbles_of v) ((nibbles_of v + 1) * 4) v

-- A number of 32 bits that is at least 256, its highest bit left out.
unfoldable pub number_code : ℕ → Code
unfolding prefixed
number_code v = let top = 31 - leading_zeros 32 v in prefixed (top - 8) top (v - 2 ^ top)

-- The bits up to the next byte, from bit `n` on.
unfoldable pub gap : ℕ → ℕ
gap n = (8 - n % 8) % 8

pub gap-lt : (n : ℕ) → gap n < 8
unfolding gap
gap-lt n = omega arith

pub gap_fills : (n : ℕ) → (n + gap n) % 8 ≡ 0
unfolding gap
gap_fills n = omega arith

-- `g` zeros and whole bytes behind them.
unfoldable pub bytes_code : ℕ → List ℕ → Code
bytes_code g bs = record { value = le_num bs * 2 ^ g; width = g + 8 * length bs }

-- A buffer written at bit `n`: its length, zeros up to the next byte, its bytes.
unfoldable pub buffer_code : ℕ → List ℕ → Code
unfolding join bytes_code
buffer_code n bs =
    let size = i64_code (length bs) in join size (bytes_code (gap (n + size.width)) bs)
