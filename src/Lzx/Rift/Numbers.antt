-- ===== src/Lzx/Rift/Numbers.antt =====
-- src/lzx/rift.rs: `IntFormat`, between a number and its symbol with the bits behind it.
use msdelta.Base.{
  ℕ, zero, suc, ◌+◌, ◌-◌, ◌*◌, ◌/◌, ◌%◌, ◌^◌, ◌≤◌, ◌<◌, ◌≡◌, inl, inr, refl, sym, ap, ◌∙◌, arith,
  bit_and, bit_or, Bool, true, false, ltb, leb, if◌then◌else◌, le_cases, le→leb, lt→leb, lt→ltb,
  le→ltb,
}
use msdelta.Base.Int.{ℤ, pos, negsuc, IsI64}
use msdelta.Base.Bits.{bit_and_mask, two-pow-add, two-pow-pos, two-pow_mono}
use msdelta.Base.Bits.Or.{bit_or_disjoint_left}
use msdelta.Bitstream.Words.{leading_zeros}
use msdelta.Bitstream.Words.Zeros.{lt-leading_zeros, leading_zeros-lower}
use native.Mathlib.Nat.{mod-lt, div-add-mod, add-sub_cancel, div-lt_iff_lt-mul}

abbrev pub int_format_half : ℕ
int_format_half = 126

-- The symbol, the bits behind it, and their count.
pub record Coded : Type 0 where
  pub symbol : ℕ
  pub extra : ℕ
  pub bits : ℕ

unfoldable pub magnitude_code : ℕ → Coded
magnitude_code m =
    let half = 63 - leading_zeros 64 m - 1 in
    if leb m 3 then record { symbol = m; extra = 0; bits = 0 } else record {
      symbol = 2 * (half + 1) + m / 2 ^ half % 2;
      extra = bit_and m (2 ^ half - 1);
      bits = half;
    }

-- `!value` of a negative number is one less than its size.
unfoldable pub value_to_symbol : ℤ → Coded
value_to_symbol (pos m) = magnitude_code m
value_to_symbol (negsuc m) =
    let c = magnitude_code m in record c { symbol = c.symbol + int_format_half }

-- `read_number` between its two reads: the sign and the index that a symbol stands for, and how
-- many bits stand behind it.
unfoldable pub magnitude_index : ℕ → ℕ × Bool
magnitude_index sym =
    if ltb sym int_format_half then (sym, false) else (sym - int_format_half, true)

unfoldable pub extra_bits : ℕ → ℕ
extra_bits idx = if leb idx 3 then 0 else idx / 2 - 1

-- And the number that both make.
unfoldable pub magnitude_of : ℕ → ℕ → ℕ
magnitude_of idx extra =
    let half = idx / 2 - 1 in if leb idx 3 then idx else bit_or ((idx % 2 + 2) * 2 ^ half) extra

unfoldable pub number_of : ℕ → ℕ → ℤ
number_of sym extra =
    let (idx, is_negative) = magnitude_index sym in
    if is_negative then negsuc (magnitude_of idx extra) else pos (magnitude_of idx extra)

-- The highest bit of a magnitude that is coded with bits behind its symbol.
top_half :
    (m : ℕ)
    → 3 < m
    → m < 2 ^ 63
    → (h : ℕ) × (h ≡ 63 - leading_zeros 64 m - 1) × (h ≤ 61) × (2 * 2 ^ h ≤ m) × (m < 4 * 2 ^ h)
top_half m more lt =
    let z : ℕ = leading_zeros 64 m in
    let h : ℕ = 62 - z in
    let (short, low) = leading_zeros-lower 64 m (omega arith) (omega arith) in
    let high : m < 2 ^ (64 - z) = lt-leading_zeros 64 m (omega arith) in
    let some_ : 0 < z = elim (le_cases z 0) [
      | inl none_ ↦
          let e : 64 - z - 1 ≡ 63 = omega arith in
          absurd (omega (arith, low, ap (λ (t : ℕ). 2 ^ t) e, lt))
      | inr s ↦ s
    ] in
    let wide : 3 ≤ 64 - z = elim (le_cases 3 (64 - z)) [
      | inl w ↦ w
      | inr n ↦ absurd (omega (arith, high, two-pow_mono (64 - z) 2 (omega arith), more))
    ] in
    let up : 64 - z ≡ h + 2 = omega arith in
    let down : 64 - z - 1 ≡ h + 1 = omega arith in
    (
      h,
      omega arith,
      omega arith,
      omega (arith, low, ap (λ (t : ℕ). 2 ^ t) down, two-pow-add h 1),
      omega (arith, high, ap (λ (t : ℕ). 2 ^ t) up, two-pow-add h 2),
    )

-- What the code of a magnitude promises.
record Faithful (m : ℕ) (c : Coded) : Type 0 where
  index : c.symbol < int_format_half
  bits_are : c.bits ≡ extra_bits c.symbol
  narrow : c.bits ≤ 61
  extra_fits : c.extra < 2 ^ c.bits
  value_is : magnitude_of c.symbol c.extra ≡ m

large :
    (m h : ℕ)
    → h ≤ 61
    → 0 < h
    → 2 * 2 ^ h ≤ m
    → m < 4 * 2 ^ h
    → Faithful m
        (record { symbol = 2 * (h + 1) + m / 2 ^ h % 2; extra = bit_and m (2 ^ h - 1); bits = h })
unfolding magnitude_of extra_bits
large m h few some_ lo hi =
    let q : ℕ = m / 2 ^ h in
    let below : q < 4 = (div-lt_iff_lt-mul {x = m} {y = 4} (two-pow-pos h)).1 (omega (arith, hi)) in
    let above : 2 ≤ q = elim (le_cases 2 q) [
      | inl a ↦ a
      | inr b ↦ absurd (omega (arith, (div-lt_iff_lt-mul {x = m} {y = 2} (two-pow-pos h)).0 b, lo))
    ] in
    let sym_half : (2 * (h + 1) + q % 2) / 2 - 1 ≡ h = omega arith in
    let sym_bit : (2 * (h + 1) + q % 2) % 2 + 2 ≡ q = omega (arith, below, above) in
    let low : bit_and m (2 ^ h - 1) ≡ m % 2 ^ h = bit_and_mask h m in
    record {
      index = omega arith;
      bits_are = rw (lt→leb {a = 2 * (h + 1) + q % 2} {b = 3} (omega arith), sym_half);
      narrow = few;
      extra_fits = rw low (mod-lt m (two-pow-pos h));
      value_is =
          rw (lt→leb {a = 2 * (h + 1) + q % 2} {b = 3} (omega arith), sym_half, sym_bit, low)
            (bit_or_disjoint_left h q (m % 2 ^ h) (mod-lt m (two-pow-pos h))
              ∙ omega (arith, div-add-mod m (2 ^ h)));
    }

small : (m : ℕ) → m ≤ 3 → Faithful m (record { symbol = m; extra = 0; bits = 0 })
unfolding magnitude_of extra_bits
small m few = record {
  index = omega arith;
  bits_are = rw (le→leb {a = m} {b = 3} few);
  narrow = omega arith;
  extra_fits = omega arith;
  value_is = rw (le→leb {a = m} {b = 3} few);
}

magnitude-Faithful : (m : ℕ) → m < 2 ^ 63 → Faithful m (magnitude_code m)
unfolding magnitude_code
magnitude-Faithful m lt = elim (le_cases m 3) [
  | inl few ↦ rw (le→leb few) (small m few)
  | inr more ↦
      let (h, at_half, short, lo, hi) = top_half m more lt in
      rw (lt→leb more, ← at_half) (large m h short (positive m h more hi) lo hi)
]
  where
    positive : (m h : ℕ) → 3 < m → m < 4 * 2 ^ h → 0 < h
    positive m zero more hi = absurd (omega (arith, more, hi))
    positive m (suc h) more hi = omega arith

-- Every i64 is coded by a symbol below 252 and fewer than 62 bits, of which the reader expects as
-- many, and the reader makes the number of both again.
pub number_of-value_to_symbol :
    (v : ℤ)
    → IsI64 v
    → let c = value_to_symbol v in
      (c.symbol < 252)
      × (c.bits ≡ extra_bits (magnitude_index c.symbol).0)
      × (c.extra < 2 ^ c.bits)
      × (c.bits ≤ 61)
      × (number_of c.symbol c.extra ≡ v)
unfolding value_to_symbol magnitude_index number_of
number_of-value_to_symbol (pos m) h =
    let f = magnitude-Faithful m h in
    rw (lt→ltb f.index, f.value_is)
      (omega (arith, f.index), f.bits_are, f.extra_fits, f.narrow, refl)
number_of-value_to_symbol (negsuc m) h =
    let f = magnitude-Faithful m h in
    let c : ℕ = (magnitude_code m).symbol in
    let back : c + int_format_half - int_format_half ≡ c = add-sub_cancel c int_format_half in
    rw (le→ltb {a = c + int_format_half} {b = int_format_half} (omega arith), back, f.value_is)
      (omega (arith, f.index), f.bits_are, f.extra_fits, f.narrow, refl)
