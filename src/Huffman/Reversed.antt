-- ===== src/Huffman/Reversed.antt =====
-- src/huffman.rs: the reversal of a code's bits.
use msdelta.Base.{ℕ, zero, suc, ◌+◌, ◌*◌, ◌/◌, ◌%◌, ◌^◌, ◌≤◌, ◌<◌, ◌≡◌, refl, ap, ◌∙◌, arith}
use msdelta.Base.Bits.{two-pow-suc, two-pow-add, half-two-pow}
use msdelta.Huffman.Codes.{reverse_bits}
use native.Mathlib.Nat.{mod-eq_of_lt, add-mul-mod_self_left}

abbrev pub rev : ℕ → ℕ → ℕ
rev n c = reverse_bits n c 0

reverse_bits-rev : (n c r : ℕ) → reverse_bits n c r ≡ r * 2 ^ n + rev n c
unfolding reverse_bits
reverse_bits-rev zero c r = omega arith
reverse_bits-rev (suc n) c r =
    let one = reverse_bits-rev n (c / 2) (2 * r + c % 2) in
    let two = reverse_bits-rev n (c / 2) (c % 2) in
    let zero_ : 2 * 0 + c % 2 ≡ c % 2 = omega arith in
    rw (zero_, one, two) (omega (arith, ap (λ (t : ℕ). r * t) (two-pow-suc n)))

rev-suc : (n c : ℕ) → rev (suc n) c ≡ c % 2 * 2 ^ n + rev n (c / 2)
unfolding reverse_bits
rev-suc n c =
    let zero_ : 2 * 0 + c % 2 ≡ c % 2 = omega arith in rw zero_ (reverse_bits-rev n (c / 2) (c % 2))

pub rev-lt : (n c : ℕ) → rev n c < 2 ^ n
unfolding reverse_bits
rev-lt zero c = omega arith
rev-lt (suc n) c =
    let bit : c % 2 * 2 ^ n ≤ 1 * 2 ^ n = grind arith in
    omega (arith, rev-suc n c, rev-lt n (c / 2), two-pow-suc n, bit)

-- The low bits of a reversed code are its first bits reversed.
pub rev-mod : (d m c : ℕ) → rev (d + m) c % 2 ^ m ≡ rev m (c / 2 ^ d)
rev-mod zero m c =
    let e : 0 + m ≡ m = omega arith in
    let f : c / 2 ^ 0 ≡ c = omega arith in rw (e, f) (mod-eq_of_lt (rev-lt m c))
rev-mod (suc d) m c =
    let e : suc d + m ≡ suc (d + m) = omega arith in
    let split : c % 2 * 2 ^ (d + m) ≡ 2 ^ m * (c % 2 * 2 ^ d) =
      ap (λ (t : ℕ). c % 2 * t) (two-pow-add d m) ∙ omega arith in
    let whole : rev (suc (d + m)) c ≡ rev (d + m) (c / 2) + 2 ^ m * (c % 2 * 2 ^ d) =
      omega (arith, rev-suc (d + m) c, split) in
    rw (e, whole, half-two-pow)
      (add-mul-mod_self_left (rev (d + m) (c / 2)) (2 ^ m) (c % 2 * 2 ^ d) ∙ rev-mod d m (c / 2))

-- The highest bit and the others.
one_more : (b p : ℕ) → suc b * p ≡ b * p + p
one_more b p = omega arith

halves : (a b x y p : ℕ) → a < 2 → b < 2 → x < p → y < p → a * p + x ≡ b * p + y → (a ≡ b) × (x ≡ y)
halves zero zero x y p ha hb hx hy e = (refl, omega arith)
halves zero (suc b) x y p ha hb hx hy e = absurd (omega (arith, one_more b p))
halves (suc a) zero x y p ha hb hx hy e = absurd (omega (arith, one_more a p))
halves (suc a) (suc b) x y p ha hb hx hy e =
    let ea : a ≡ 0 = omega arith in
    let eb : b ≡ 0 = omega arith in
    (omega arith, omega (arith, ap (λ (t : ℕ). t * p) ea, ap (λ (t : ℕ). t * p) eb))

pub rev-injective : (n c d : ℕ) → c < 2 ^ n → d < 2 ^ n → rev n c ≡ rev n d → c ≡ d
rev-injective zero c d hc hd e = omega arith
rev-injective (suc n) c d hc hd e =
    let whole : c % 2 * 2 ^ n + rev n (c / 2) ≡ d % 2 * 2 ^ n + rev n (d / 2) =
      omega (arith, e, rev-suc n c, rev-suc n d) in
    let (same_bit, same_rest) =
      halves (c % 2) (d % 2) (rev n (c / 2)) (rev n (d / 2)) (2 ^ n) (omega arith) (omega arith)
        (rev-lt n (c / 2)) (rev-lt n (d / 2)) whole in
    let half =
      rev-injective n (c / 2) (d / 2) (omega (arith, two-pow-suc n)) (omega (arith, two-pow-suc n))
        same_rest in
    omega (arith, half, same_bit)
