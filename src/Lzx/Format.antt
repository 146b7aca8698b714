-- ===== src/Lzx/Format.antt =====
-- src/lzx/format.rs: the code lengths that stand for tables which are not sent.
use msdelta.Base.{
  ℕ, zero, suc, ◌+◌, ◌-◌, ◌*◌, ◌≤◌, ◌<◌, ◌^◌, ◌≡◌, refl, ap, arith, List, [], ◌∷◌, ◌++◌, length,
  length-append, replicate, All, All-append, le_cases, inl, inr, leb, ◌==◌, if◌then◌else◌, lt→leb,
  ne→==,
}
use msdelta.Base.Bits.{two-pow-add, two-pow_mono}
use msdelta.Bitstream.Words.{leading_zeros}
use msdelta.Bitstream.Words.Zeros.{lt-leading_zeros, leading_zeros-lower}

-- `ilog2` of a word that is not 0.
unfoldable pub ilog2 : ℕ → ℕ
ilog2 n = 63 - leading_zeros 64 n

unfoldable pub flat_code_lengths : ℕ → List ℕ
flat_code_lengths count =
    let bits_needed = ilog2 (count - 1) + 1 in
    let short_count = 2 ^ bits_needed - count in
    if count == 0
    then []
    else if leb count 2
    then replicate count 1
    else replicate short_count (bits_needed - 1) ++ replicate (count - short_count) bits_needed

-- The leaves that codes of these lengths, `depth` at most, cover in a tree of that depth.
unfoldable pub leaves : ℕ → List ℕ → ℕ
leaves depth [] = 0
leaves depth (l ∷ ls) = 2 ^ (depth - l) + leaves depth ls

leaves-append : (d : ℕ) (xs ys : List ℕ) → leaves d (xs ++ ys) ≡ leaves d xs + leaves d ys
unfolding leaves
leaves-append d [] ys = omega arith
leaves-append d (x ∷ xs) ys = omega (arith, leaves-append d xs ys)

leaves-replicate : (d n l : ℕ) → leaves d (replicate n l) ≡ n * 2 ^ (d - l)
unfolding leaves
leaves-replicate d zero l = omega arith
leaves-replicate d (suc n) l = omega (arith, leaves-replicate d n l)

pub length-replicate : (n l : ℕ) → length (replicate n l) ≡ n
length-replicate zero l = refl
length-replicate (suc n) l = ap suc (length-replicate n l)

top_bounds :
    (count : ℕ)
    → 2 < count
    → count < 2 ^ 63
    → (count ≤ 2 ^ (ilog2 (count - 1) + 1)) × (2 ^ (ilog2 (count - 1) + 1) ≤ 2 * count)
unfolding ilog2
top_bounds count more fits =
    let m : ℕ = count - 1 in
    let z : ℕ = leading_zeros 64 m in
    let (few, low) = leading_zeros-lower 64 m (omega arith) (omega arith) in
    let high = lt-leading_zeros 64 m (omega arith) in
    let up : 64 - z ≡ 63 - z + 1 = omega (arith, few) in
    let down : 64 - z - 1 ≡ 63 - z = omega (arith, few) in
    (
      omega (arith, high, ap (λ (t : ℕ). 2 ^ t) up),
      omega (arith, low, ap (λ (t : ℕ). 2 ^ t) down, two-pow-add (63 - z) 1),
    )

All-replicate : (P : ℕ → Type 0) (n l : ℕ) → P l → All P (replicate n l)
All-replicate P zero l h = tt
All-replicate P (suc n) l h = (h, All-replicate P n l h)

-- For more than two symbols the lengths are one for each symbol, none is 0 or above the tree's
-- depth, and they fill the tree: no code can be added and none is missing.
pub flat_code_lengths-leaves :
    (count : ℕ)
    → 2 < count
    → count < 2 ^ 63
    → (length (flat_code_lengths count) ≡ count)
      × All (λ l. (0 < l) × (l ≤ ilog2 (count - 1) + 1)) (flat_code_lengths count)
      × (leaves (ilog2 (count - 1) + 1) (flat_code_lengths count) ≡ 2 ^ (ilog2 (count - 1) + 1))
unfolding flat_code_lengths
flat_code_lengths-leaves count more fits =
    rw (ne→== {a = count} {b = 0} (omega arith), lt→leb {a = count} {b = 2} (omega arith))
      (counted, within, filled)
  where
    b : ℕ
    b = ilog2 (count - 1) + 1

    bounds : (count ≤ 2 ^ b) × (2 ^ b ≤ 2 * count)
    bounds = top_bounds count more fits

    short : ℕ
    short = 2 ^ b - count

    counted : length (replicate short (b - 1) ++ replicate (count - short) b) ≡ count
    counted = omega (
      arith,
      length-append (replicate short (b - 1)) (replicate (count - short) b),
      length-replicate short (b - 1),
      length-replicate (count - short) b,
      bounds.0,
      bounds.1,
    )

    deep : 2 ≤ b
    deep = elim (le_cases 2 b) [
      | inl enough ↦ enough
      | inr low ↦ absurd (omega (arith, bounds.0, more, two-pow_mono b 1 (omega (arith, low))))
    ]

    within : All (λ l. (0 < l) × (l ≤ b)) (replicate short (b - 1) ++ replicate (count - short) b)
    within =
        All-append (λ l. (0 < l) × (l ≤ b)) (replicate short (b - 1)) (replicate (count - short) b)
          (All-replicate _ short (b - 1) (omega (arith, deep), omega arith))
          (All-replicate _ (count - short) b (omega (arith, deep), omega arith))

    filled : leaves b (replicate short (b - 1) ++ replicate (count - short) b) ≡ 2 ^ b
    filled =
        let one : b - (b - 1) ≡ 1 = omega arith in
        let none_ : b - b ≡ 0 = omega arith in
        rw (leaves-append, leaves-replicate, leaves-replicate, one, none_)
          (omega (arith, bounds.0, bounds.1))
