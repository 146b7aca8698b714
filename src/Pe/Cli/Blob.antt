-- ===== src/Pe/Cli/Blob.antt =====
-- src/pe/cli/blob.rs: the compressed numbers of signature blobs.
use msdelta.Base.{
  ℕ, ◌+◌, ◌*◌, ◌/◌, ◌%◌, ◌^◌, ◌<◌, ◌≡◌, inl, inr, refl, ◌∙◌, arith, bit_and, bit_or, Option, none,
  some, List, [], ◌∷◌, le_cases, eq_cases, eq→==, ne→==, lt→ltb, le→ltb, ltb, ◌==◌, if◌then◌else◌,
}
use msdelta.Base.Bits.Or.{bit_or_disjoint_left, bit_or_byte}
use msdelta.Base.Table.{agree→eq}
use msdelta.Errors.{truncated, malformed}
use msdelta.Errors.{Result, ok, err}

unfoldable pub read_two : List ℕ → Result (ℕ × ℕ)
read_two (b0 ∷ b1 ∷ rest) = ok (bit_or (bit_and b0 0x3f * 2 ^ 8) b1, 2)
read_two _ = err truncated

unfoldable pub read_four : List ℕ → Result (ℕ × ℕ)
read_four (b0 ∷ b1 ∷ b2 ∷ b3 ∷ rest) =
    ok (bit_or (bit_or (bit_or (bit_and b0 0x1f * 2 ^ 24) (b1 * 2 ^ 16)) (b2 * 2 ^ 8)) b3, 4)
read_four _ = err truncated

unfoldable pub read_compressed_u32 : List ℕ → Result (ℕ × ℕ)
read_compressed_u32 [] = err truncated
read_compressed_u32 (first ∷ rest) =
    if bit_and first 0x80 == 0
    then ok (first, 1)
    else if bit_and first 0xc0 == 0x80
    then read_two (first ∷ rest)
    else if bit_and first 0xe0 == 0xc0
    then read_four (first ∷ rest)
    else err (malformed "reserved CLI compressed unsigned integer prefix")

-- The bytes that a width's branch writes over the front of `output`; `none` stands for `false`.
unfoldable pub write_one : List ℕ → ℕ → Option (List ℕ)
write_one (o ∷ output) value = if ltb value 0x80 then some ((value % 256) ∷ output) else none
write_one _ value = none

unfoldable pub write_two : List ℕ → ℕ → Option (List ℕ)
write_two (o0 ∷ o1 ∷ output) value =
    if ltb value 0x4000
    then some (bit_or (value / 2 ^ 8 % 256) 0x80 ∷ (value % 256) ∷ output)
    else none
write_two _ value = none

unfoldable pub write_four : List ℕ → ℕ → Option (List ℕ)
write_four (o0 ∷ o1 ∷ o2 ∷ o3 ∷ output) value =
    if ltb value 0x2000_0000
    then some (
        bit_or (value / 2 ^ 24 % 256) 0xc0
        ∷ (value / 2 ^ 16 % 256)
        ∷ (value / 2 ^ 8 % 256)
        ∷ (value % 256)
        ∷ output)
    else none
write_four _ value = none

unfoldable pub write_compressed_u32_preserving_width : List ℕ → ℕ → ℕ → Option (List ℕ)
write_compressed_u32_preserving_width output width value =
    if width == 1
    then write_one output value
    else if width == 2
    then write_two output value
    else if width == 4
    then write_four output value
    else none

-- Whether the width is the number's, and how the prefix of its first byte is read.
one_bits : (v : ℕ) → v < 0x80 → bit_and v 0x80 ≡ 0
one_bits = agree→eq (λ v. bit_and v 0x80) (λ v. 0) 0x80 refl

-- The first byte of a number of two bytes: its mark, and the bits of the number.
two_mark : (h : ℕ) → h < 0x40 → bit_or h 0x80 ≡ h + 0x80
two_mark = agree→eq (λ h. bit_or h 0x80) (λ h. h + 0x80) 0x40 refl

four_mark : (h : ℕ) → h < 0x20 → bit_or h 0xc0 ≡ h + 0xc0
four_mark = agree→eq (λ h. bit_or h 0xc0) (λ h. h + 0xc0) 0x20 refl

high_bit : (b : ℕ) → b < 0x80 → bit_and (b + 0x80) 0x80 ≡ 0x80
high_bit = agree→eq (λ b. bit_and (b + 0x80) 0x80) (λ b. 0x80) 0x80 refl

two_prefix : (h : ℕ) → h < 0x40 → bit_and (h + 0x80) 0xc0 ≡ 0x80
two_prefix = agree→eq (λ h. bit_and (h + 0x80) 0xc0) (λ h. 0x80) 0x40 refl

not_two_prefix : (h : ℕ) → h < 0x20 → bit_and (h + 0xc0) 0xc0 ≡ 0xc0
not_two_prefix = agree→eq (λ h. bit_and (h + 0xc0) 0xc0) (λ h. 0xc0) 0x20 refl

four_prefix : (h : ℕ) → h < 0x20 → bit_and (h + 0xc0) 0xe0 ≡ 0xc0
four_prefix = agree→eq (λ h. bit_and (h + 0xc0) 0xe0) (λ h. 0xc0) 0x20 refl

four_high : (h : ℕ) → h < 0x20 → bit_and (h + 0xc0) 0x80 ≡ 0x80
four_high = agree→eq (λ h. bit_and (h + 0xc0) 0x80) (λ h. 0x80) 0x20 refl

two_low : (h : ℕ) → h < 0x40 → bit_and (h + 0x80) 0x3f ≡ h
two_low = agree→eq (λ h. bit_and (h + 0x80) 0x3f) (λ h. h) 0x40 refl

four_low : (h : ℕ) → h < 0x20 → bit_and (h + 0xc0) 0x1f ≡ h
four_low = agree→eq (λ h. bit_and (h + 0xc0) 0x1f) (λ h. h) 0x20 refl

-- What a write that succeeds promises: the number and the width are read back.
unfoldable pub ReadsBack : Option (List ℕ) → ℕ → ℕ → Type 0
ReadsBack none width value = Unit
ReadsBack (some bytes) width value = read_compressed_u32 bytes ≡ ok (value, width)

one_back : (output : List ℕ) (value : ℕ) → ReadsBack (write_one output value) 1 value
unfolding write_one ReadsBack read_compressed_u32
one_back [] value = tt
one_back (o ∷ output) value = elim (le_cases 0x80 value) [
  | inl big ↦ rw (le→ltb {a = value} {b = 0x80} big) tt
  | inr small ↦
      let byte : value % 256 ≡ value = omega arith in
      rw (lt→ltb {a = value} {b = 0x80} small, byte, one_bits value small)
]

two_back : (output : List ℕ) (value : ℕ) → ReadsBack (write_two output value) 2 value
unfolding write_two ReadsBack read_compressed_u32 read_two
two_back [] value = tt
two_back (o0 ∷ []) value = tt
two_back (o0 ∷ o1 ∷ output) value = elim (le_cases 0x4000 value) [
  | inl big ↦ rw (le→ltb {a = value} {b = 0x4000} big) tt
  | inr small ↦
      let h : ℕ = value / 2 ^ 8 in
      let lt : h < 0x40 = omega arith in
      let byte : bit_or (value / 2 ^ 8 % 256) 0x80 ≡ h + 0x80 =
        let same : value / 2 ^ 8 % 256 ≡ h = omega arith in rw same (two_mark h lt) in
      let whole : bit_or (h * 2 ^ 8) (value % 256) ≡ value =
        bit_or_disjoint_left 8 h (value % 256) (omega arith) ∙ omega arith in
      rw (
        lt→ltb {a = value} {b = 0x4000} small,
        byte,
        high_bit h (omega (arith, lt)),
        two_prefix h lt,
        two_low h lt,
        whole,
      )
]

four_back : (output : List ℕ) (value : ℕ) → ReadsBack (write_four output value) 4 value
unfolding write_four ReadsBack read_compressed_u32 read_four
four_back [] value = tt
four_back (o0 ∷ []) value = tt
four_back (o0 ∷ o1 ∷ []) value = tt
four_back (o0 ∷ o1 ∷ o2 ∷ []) value = tt
four_back (o0 ∷ o1 ∷ o2 ∷ o3 ∷ output) value = elim (le_cases 0x2000_0000 value) [
  | inl big ↦ rw (le→ltb {a = value} {b = 0x2000_0000} big) tt
  | inr small ↦
      let h : ℕ = value / 2 ^ 24 in
      let lt : h < 0x20 = omega arith in
      let b1 : ℕ = value / 2 ^ 16 % 256 in
      let b2 : ℕ = value / 2 ^ 8 % 256 in
      let byte : bit_or (value / 2 ^ 24 % 256) 0xc0 ≡ h + 0xc0 =
        let same : value / 2 ^ 24 % 256 ≡ h = omega arith in rw same (four_mark h lt) in
      let whole : bit_or (((h * 256 + b1) * 256 + b2) * 2 ^ 8) (value % 256) ≡ value =
        bit_or_disjoint_left 8 ((h * 256 + b1) * 256 + b2) (value % 256) (omega arith)
        ∙ omega arith in
      rw (
        lt→ltb {a = value} {b = 0x2000_0000} small,
        byte,
        four_high h lt,
        not_two_prefix h lt,
        four_prefix h lt,
        four_low h lt,
        bit_or_byte h 16 b1 (omega arith),
        bit_or_byte (h * 256 + b1) 8 b2 (omega arith),
        whole,
      )
]

-- Where a number is written in a width, reading gives the number and the width back.
pub read_compressed_u32-write :
    (output : List ℕ) (width value : ℕ)
    → ReadsBack (write_compressed_u32_preserving_width output width value) width value
unfolding write_compressed_u32_preserving_width
read_compressed_u32-write output width value = elim (eq_cases width 1) [
  | inl one ↦ rw (eq→== one, one) (one_back output value)
  | inr n1 ↦ elim (eq_cases width 2) [
    | inl two ↦ rw (ne→== n1, eq→== two, two) (two_back output value)
    | inr n2 ↦ elim (eq_cases width 4) [
      | inl four ↦ rw (ne→== n1, ne→== n2, eq→== four, four) (four_back output value)
      | inr n4 ↦ rw (ne→== n1, ne→== n2, ne→== n4) (unfold ReadsBack in tt)
    ]
  ]
]
