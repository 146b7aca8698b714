-- ===== src/Bitstream/Writer/Numbers.antt =====
-- `write_i64` and `write_u32_number` append the encodings of their numbers.
use msdelta.Base.{
  ℕ, ◌+◌, ◌-◌, ◌*◌, ◌/◌, ◌%◌, ◌^◌, ◌≤◌, ◌<◌, ◌≡◌, inl, inr, refl, sym, ap, ◌∙◌, arith, bit_and,
  bit_or, le_cases, eq_cases, eq→==, ne→==, ◌≢◌,
}
use msdelta.Base.Int.{ℤ, as_u64, as_u64-lt}
use msdelta.Base.Bits.{two-pow-add, two-pow-pos, two-pow_mono, join-lt, bit_and_mask}
use msdelta.Base.Bits.Or.{bit_or-lt, le-bit_or}
use msdelta.Bitstream.Words.{u32, shl64, mask64, leading_zeros}
use msdelta.Bitstream.Words.Laws.{shr64_lem, one-shl64, bit_and-mask64}
use msdelta.Bitstream.Words.Zeros.{lt-leading_zeros, leading_zeros-lower}
use msdelta.Bitstream.Code.{
  groups_behind, nibbles_of, nibbles_of_fit, nibbles_of_unique, i64_code, number_code, prefixed,
}
use msdelta.Bitstream.Writer.{
  BitWriter, write_bits, low_nibbles, write_low, write_high, write_u64, write_i64, write_u32_number,
}
use msdelta.Bitstream.Writer.Writes.{Writes, Writes-at, two_parts, write_bits-Writes}
use mathlib.Core.Path.{subst, subst₂}
use native.Mathlib.Nat.{mod-eq_of_lt, mod-eq-sub-mod}

-- A 32-bit word `t` has its highest bit where `x` has its own; in groups of four bits.
groups :
    (x t : ℕ)
    → x ≤ t
    → t < 2 ^ 32
    → 0 < t
    → ((m : ℕ) → m < 32 → x < 2 ^ m → t < 2 ^ m)
    → ((31 - leading_zeros 32 t) / 4 ≤ 7)
      × (x < 2 ^ (((31 - leading_zeros 32 t) / 4 + 1) * 4))
      × (2 ^ ((31 - leading_zeros 32 t) / 4 * 4) ≤ x)
groups x t le lt more same =
    let (l, low) = leading_zeros-lower 32 t lt more in
    let m : ℕ = (31 - leading_zeros 32 t) / 4 * 4 in
    (
      omega arith,
      omega (
        arith,
        le,
        lt-leading_zeros 32 t lt,
        two-pow_mono (32 - leading_zeros 32 t) (((31 - leading_zeros 32 t) / 4 + 1) * 4)
            (omega (arith, l)),
      ),
      elim (le_cases (2 ^ m) x) [
        | inl above ↦ above
        | inr below ↦ absurd (
            omega (
              arith,
              low,
              same m (omega arith) below,
              two-pow_mono m (32 - leading_zeros 32 t - 1) (omega (arith, l)),
            ))
      ],
    )

-- `write_low` takes as few groups as hold the number.
low_nibbles-nibbles_of : (low : ℕ) → low < 2 ^ 32 → low_nibbles low ≡ nibbles_of low
unfolding low_nibbles
low_nibbles-nibbles_of low lt = elim (eq_cases low 0) [
  | inl e ↦ rw (eq→== e, e) (unfold nibbles_of groups_behind in refl)
  | inr n ↦
      let half : low / 2 < 2 ^ 32 = omega arith in
      let u : ℕ = bit_or (low / 2) low in
      let ul : u < 2 ^ 32 = bit_or-lt 32 (low / 2) low half lt in
      let tl : bit_or u 1 < 2 ^ 32 = bit_or-lt 32 u 1 ul (omega arith) in
      let (few, hi, lo) =
        groups low (bit_or u 1)
          (omega (arith, le-bit_or 32 (low / 2) low half lt, le-bit_or 32 u 1 ul (omega arith))) tl
          (omega (arith, le-bit_or 32 u 1 ul (omega arith)))
          (λ m small below.
            bit_or-lt m u 1 (bit_or-lt m (low / 2) low (omega (arith, below)) below)
              (omega (arith, below, n))) in
      rw (ne→== n) (sym (nibbles_of_unique _ low (omega (arith, few)) lo hi))
]

-- The groups that the upper half of a number takes.
high_group : ℕ → ℕ
high_group high = (31 - leading_zeros 32 (bit_or (high / 2) high)) / 4

high_group_fits :
    (high : ℕ)
    → high < 2 ^ 32
    → high ≢ 0
    → (high_group high ≤ 7)
      × (high < 2 ^ ((high_group high + 1) * 4))
      × (2 ^ (high_group high * 4) ≤ high)
unfolding high_group
high_group_fits high lt n =
    let half : high / 2 < 2 ^ 32 = omega arith in
    let (_, le) = le-bit_or 32 (high / 2) high half lt in
    groups high (bit_or (high / 2) high) le (bit_or-lt 32 (high / 2) high half lt)
      (omega (arith, n, le))
      (λ m small below. bit_or-lt m (high / 2) high (omega (arith, below)) below)

-- So does `write_high`, with the eight groups of the lower half.
high_group-nibbles_of :
    (v : ℕ) → v < 2 ^ 64 → v / 2 ^ 32 ≢ 0 → high_group (v / 2 ^ 32) + 8 ≡ nibbles_of v
high_group-nibbles_of v lt n =
    let high : ℕ = v / 2 ^ 32 in
    let g : ℕ = high_group high in
    let (few, hi, lo) = high_group_fits high (omega arith) n in
    let both : v % 2 ^ 32 + high * 2 ^ 32 < 2 ^ (32 + (g + 1) * 4) =
      join-lt (v % 2 ^ 32) high 32 ((g + 1) * 4) (omega arith) hi in
    let whole : v % 2 ^ 32 + high * 2 ^ 32 ≡ v = omega arith in
    let above : v < 2 ^ ((g + 8 + 1) * 4) =
      subst₂ (λ (a b : ℕ). a < 2 ^ b) whole (omega arith) both in
    let least : 2 ^ (g * 4 + 32) ≤ v = omega (arith, two-pow-add (g * 4) 32, lo) in
    let below : 2 ^ ((g + 8) * 4) ≤ v = subst (λ (t : ℕ). 2 ^ t ≤ v) (omega arith) least in
    sym (nibbles_of_unique (g + 8) v (omega (arith, few)) below above)

prefix-Writes :
    {w : BitWriter} {v n : ℕ} (k : ℕ)
    → Writes w v n
    → k < 63
    → Writes (write_bits (shl64 1 k) (k + 1) w) (v + 2 ^ k * 2 ^ n) (n + (k + 1))
prefix-Writes {w} {v} {n} k h lt =
    let fits : 2 ^ k % 2 ^ (k + 1) ≡ 2 ^ k =
      mod-eq_of_lt (omega (arith, two-pow-add k 1, two-pow-pos k)) in
    let e =
      write_bits-Writes (2 ^ k) (k + 1) h (omega arith)
        (omega (arith, two-pow_mono k 63 (omega arith))) in
    rw (one-shl64 k (omega arith)) (rw fits at e)

-- A prefix and a number behind it.
prefixed-Writes :
    {w : BitWriter} {v n : ℕ} (k m x : ℕ)
    → Writes w v n
    → k < 63
    → m ≤ 64
    → x < 2 ^ 64
    → x < 2 ^ m
    → Writes
        (write_bits x m (write_bits (shl64 1 k) (k + 1) w))
        (v + (prefixed k m x).value * 2 ^ n)
        (n + (prefixed k m x).width)
unfolding prefixed
prefixed-Writes {w} {v} {n} k m x h lt wide word fits =
    let e = write_bits-Writes x m (prefix-Writes k h lt) wide word in
    let value : v + 2 ^ k * 2 ^ n + x % 2 ^ m * 2 ^ (n + (k + 1))
        ≡ v + (2 ^ k + x * 2 ^ (k + 1)) * 2 ^ n =
      rw (mod-eq_of_lt fits) (omega (arith, ap (λ (t : ℕ). x * t) (two-pow-add n (k + 1)))) in
    Writes-at _ _ e value (omega arith)

-- Two more fields behind the prefix: the low half of a number and its upper half.
halves-Writes :
    {w : BitWriter} {v n : ℕ} (k m x : ℕ)
    → Writes w v n
    → k < 63
    → m ≤ 32
    → x < 2 ^ 64
    → x / 2 ^ 32 < 2 ^ m
    → Writes
        (write_bits (x / 2 ^ 32) m (write_bits (x % 2 ^ 32) 32 (write_bits (shl64 1 k) (k + 1) w)))
        (v + (prefixed k (32 + m) x).value * 2 ^ n)
        (n + (prefixed k (32 + m) x).width)
unfolding prefixed
halves-Writes {w} {v} {n} k m x h lt narrow word fits =
    let e1 = write_bits-Writes (x % 2 ^ 32) 32 (prefix-Writes k h lt) (omega arith) (omega arith) in
    let e2 = write_bits-Writes (x / 2 ^ 32) m e1 (omega arith) (omega arith) in
    let low : x % 2 ^ 32 % 2 ^ 32 ≡ x % 2 ^ 32 = omega arith in
    let value : v
          + 2 ^ k * 2 ^ n
          + x % 2 ^ 32 % 2 ^ 32 * 2 ^ (n + (k + 1))
          + x / 2 ^ 32 % 2 ^ m * 2 ^ (n + (k + 1) + 32)
        ≡ v + (2 ^ k + x * 2 ^ (k + 1)) * 2 ^ n =
      rw (low, mod-eq_of_lt fits)
        (omega
          (arith, two_parts x 32 (n + (k + 1)), ap (λ (t : ℕ). x * t) (two-pow-add n (k + 1)))) in
    Writes-at _ _ e2 value (omega arith)

write_low-Writes :
    {w : BitWriter} {v n : ℕ} (low : ℕ)
    → Writes w v n
    → low < 2 ^ 32
    → Writes (write_low low w) (v + (i64_code low).value * 2 ^ n) (n + (i64_code low).width)
unfolding write_low i64_code
write_low-Writes low h lt =
    let (few, fits) = nibbles_of_fit low (omega arith) in
    rw (low_nibbles-nibbles_of low lt) (
      prefixed-Writes (nibbles_of low) ((nibbles_of low + 1) * 4) low h (omega (arith, few))
        (omega (arith, few)) (omega arith) fits)

write_high-Writes :
    {w : BitWriter} {v n : ℕ} (x high : ℕ)
    → Writes w v n
    → x < 2 ^ 64
    → high ≡ x / 2 ^ 32
    → high_group high ≤ 7
    → high < 2 ^ ((high_group high + 1) * 4)
    → Writes
        (write_high x high w)
        (v + (prefixed (high_group high + 8) (32 + (high_group high + 1) * 4) x).value * 2 ^ n)
        (n + (prefixed (high_group high + 8) (32 + (high_group high + 1) * 4) x).width)
unfolding write_high high_group
write_high-Writes {w} {v} {n} x high h lt e few fits =
    let top : ℕ = 31 - leading_zeros 32 (bit_or (high / 2) high) in
    let bits : top - top % 4 + 4 ≡ (top / 4 + 1) * 4 = omega arith in
    let first : top / 4 + 9 ≡ top / 4 + 8 + 1 = omega arith in
    rw (bits, first, bit_and_mask 32 x, e)
      (halves-Writes (high_group (x / 2 ^ 32) + 8) ((high_group (x / 2 ^ 32) + 1) * 4) x h
        (omega (arith, rw e at few)) (omega (arith, rw e at few)) lt (rw e at fits))

-- `write_i64` appends the encoding of its number's 64 bits.
pub write_u64-Writes :
    {w : BitWriter} {v n : ℕ} (x : ℕ)
    → Writes w v n
    → x < 2 ^ 64
    → Writes (write_u64 x w) (v + (i64_code x).value * 2 ^ n) (n + (i64_code x).width)
unfolding write_u64 i64_code
write_u64-Writes {w} {v} {n} x h lt = elim (eq_cases (u32 (x / 2 ^ 32)) 0) [
  | inl e ↦
      let whole : x % 2 ^ 32 ≡ x = omega (arith, e) in
      rw (shr64_lem x 32 (omega arith), eq→== e, whole) (write_low-Writes x h (omega (arith, e)))
  | inr more ↦
      let whole : u32 (x / 2 ^ 32) ≡ x / 2 ^ 32 = omega arith in
      let part : x / 2 ^ 32 ≢ 0 = omega (arith, more) in
      let (few, fits, _) = high_group_fits (x / 2 ^ 32) (omega arith) part in
      let e = write_high-Writes x (x / 2 ^ 32) h lt refl few fits in
      let width : 32 + (high_group (x / 2 ^ 32) + 1) * 4 ≡ (high_group (x / 2 ^ 32) + 8 + 1) * 4 =
        omega arith in
      rw (shr64_lem x 32 (omega arith), ne→== more, whole, ← high_group-nibbles_of x lt part)
        (rw width at e)
]

-- `write_i64` appends the encoding of its number.
pub write_i64-Writes :
    {w : BitWriter} {v n : ℕ} (x : ℤ)
    → Writes w v n
    → Writes
        (write_i64 x w)
        (v + (i64_code (as_u64 x)).value * 2 ^ n)
        (n + (i64_code (as_u64 x)).width)
unfolding write_i64
write_i64-Writes x h = write_u64-Writes (as_u64 x) h (as_u64-lt x)

-- The highest bit of a 32-bit number that is at least 256.
pub top_bit :
    (x : ℕ)
    → 256 ≤ x
    → x < 2 ^ 32
    → (8 ≤ 31 - leading_zeros 32 x)
      × (2 ^ (31 - leading_zeros 32 x) ≤ x)
      × (x < 2 ^ (31 - leading_zeros 32 x + 1))
top_bit x lo hi =
    let (some_, le) = leading_zeros-lower 32 x hi (omega arith) in
    let lt = lt-leading_zeros 32 x hi in
    (
      elim (le_cases 8 (31 - leading_zeros 32 x)) [
        | inl enough ↦ enough
        | inr few ↦
            absurd (omega (arith, lt, two-pow_mono (32 - leading_zeros 32 x) 8 (omega arith)))
      ],
      subst (λ (t : ℕ). 2 ^ t ≤ x) (omega arith) le,
      subst (λ (t : ℕ). x < 2 ^ t) (omega (arith, some_)) lt,
    )

-- A number without its highest bit.
pub mod_top : (x t : ℕ) → 2 ^ t ≤ x → x < 2 ^ (t + 1) → x % 2 ^ t ≡ x - 2 ^ t
mod_top x t le lt = mod-eq-sub-mod le ∙ mod-eq_of_lt (omega (arith, lt, two-pow-add t 1))

-- `write_u32_number` appends the encoding of its number.
pub write_u32_number-Writes :
    {w : BitWriter} {v n : ℕ} (x : ℕ)
    → Writes w v n
    → 256 ≤ x
    → x < 2 ^ 32
    → Writes (write_u32_number x w) (v + (number_code x).value * 2 ^ n) (n + (number_code x).width)
unfolding write_u32_number number_code
write_u32_number-Writes {w} {v} {n} x h lo hi =
    let t : ℕ = 31 - leading_zeros 32 x in
    let (big, le, lt) = top_bit x lo hi in
    let width : t - 8 + 8 ≡ t = omega (arith, big) in
    let low : bit_and x (mask64 t) ≡ x - 2 ^ t =
      bit_and-mask64 x t (omega arith) ∙ mod_top x t le lt in
    rw (width, low)
      (prefixed-Writes (t - 8) t (x - 2 ^ t) h (omega arith) (omega arith) (omega arith)
        (omega (arith, lt, two-pow-add t 1)))
