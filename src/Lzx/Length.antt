-- ===== src/Lzx/Length.antt =====
-- src/lzx/encode.rs and src/lzx/decode.rs: the length of a match, written and read.
use msdelta.Base.{
  ℕ, ◌+◌, ◌-◌, ◌^◌, ◌≤◌, ◌<◌, ◌≡◌, ◌≢◌, inl, inr, refl, ap, arith, true, false, ◌&&◌, List, [], ◌∷◌,
  All, max, ltb, leb, ◌==◌, if◌then◌else◌, lt→ltb, le→ltb, lt→leb, le→leb, ne→==, eq→==, le_cases,
  Bool-cases,
}
use msdelta.Errors.{ok}
use msdelta.Bitstream.Reader.{BitReader, read_u32_number}
use msdelta.Bitstream.Writer.{BitWriter}
use msdelta.Bitstream.Fields.{Field, number, IsValid, write_field, write_fields}
use msdelta.Bitstream.Fields.At.{At, next_number}
use msdelta.Huffman.Table.{HuffmanTable}
use msdelta.Huffman.Symbols
use msdelta.Huffman.Reading.{HasCode}
use msdelta.Huffman.Coder.{IsCoder, symbol_field, symbol_field-IsValid, next_symbol}
use msdelta.Lzx.Symbols.{SegmentTables, decode_length}
use msdelta.Lzx.Matches.{compute_length_slot, compute_length_extra, write_extras, write_length}
use msdelta.Lzx.Far.{extra_fields}

-- A length's fields, in front of others.
unfoldable pub length_fields : HuffmanTable → ℕ → List Field → List Field
length_fields lengths len fs =
    let len_sym = compute_length_extra len in
    if ltb 1 len && leb (len - 1) 7
    then fs
    else symbol_field lengths len_sym
      ∷ (if len_sym == 0 then number (max (len - 1 - 7) 256) ∷ fs else fs)

pub write_length-fields :
    (lengths : HuffmanTable) (len : ℕ) (fs : List Field) (w : BitWriter)
    → write_fields (length_fields lengths len fs) w ≡ write_fields fs (write_length lengths len w)
unfolding length_fields write_length write_fields write_field Symbols.write_symbol
write_length-fields lengths len fs w = elim (Bool-cases (ltb 1 len && leb (len - 1) 7)) [
  | inl short ↦ rw short refl
  | inr long ↦ elim (Bool-cases (compute_length_extra len == 0)) [
    | inl z ↦ rw (long, z) refl
    | inr some_ ↦ rw (long, some_) refl
  ]
]

pub write_extras-fields :
    (aligned : HuffmanTable) (raw : ℕ) (extras : List (ℕ × ℕ)) (fs : List Field) (w : BitWriter)
    → write_fields (extra_fields aligned raw extras fs) w
      ≡ write_fields fs (write_extras aligned raw extras w)
unfolding extra_fields write_extras write_fields write_field Symbols.write_symbol
write_extras-fields aligned raw [] fs w = refl
write_extras-fields aligned raw ((val, bits) ∷ extras) fs w =
    elim (Bool-cases (val == 2 ^ 64 - 1)) [
      | inl aligned_ ↦ rw aligned_ (write_extras-fields aligned raw extras fs _)
      | inr other ↦ elim (Bool-cases (ltb 0 bits)) [
        | inl some_ ↦ rw (other, some_) (write_extras-fields aligned raw extras fs _)
        | inr none_ ↦ rw (other, none_) (write_extras-fields aligned raw extras fs _)
      ]
    ]

-- The three kinds of lengths: with a slot, with a symbol, with a number.
has_slot : (len : ℕ) → 2 ≤ len → len ≤ 8 → (ltb 1 len && leb (len - 1) 7) ≡ true
has_slot len lo hi = let small : len - 1 ≤ 7 = omega (arith, hi) in rw (lt→ltb lo, le→leb small)

no_slot : (len : ℕ) → 8 < len → (ltb 1 len && leb (len - 1) 7) ≡ false
no_slot len h =
    let more : 1 < len = omega (arith, h) in
    let large : 7 < len - 1 = omega (arith, h) in rw (lt→ltb more, lt→leb large)

has_symbol : (len : ℕ) → 8 < len → len ≤ 263 → compute_length_extra len ≡ len - 8
unfolding compute_length_extra
has_symbol len h k =
    let some_ : 0 < len - 1 - 7 = omega (arith, h) in
    let small : len - 1 - 7 ≤ 255 = omega (arith, k) in
    rw (lt→ltb some_, le→leb small) (omega arith)

no_symbol : (len : ℕ) → 263 < len → compute_length_extra len ≡ 0
unfolding compute_length_extra
no_symbol len h =
    let some_ : 0 < len - 1 - 7 = omega (arith, h) in
    let large : 255 < len - 1 - 7 = omega (arith, h) in rw (lt→ltb some_, lt→leb large)

module _ (tables : SegmentTables) (coder : IsCoder tables.lengths) (len : ℕ) (lo : 2 ≤ len)
    (hi : len < 2 ^ 32)
    (has : compute_length_slot len ≡ 0
      → HasCode tables.lengths.lengths (compute_length_extra len)) where
  own : 8 < len → HasCode tables.lengths.lengths (compute_length_extra len)
  unfolding compute_length_slot
  own h = has (rw (no_slot len h))

  as_number :
      263 < len → IsValid (number (max (len - 1 - 7) 256)) × (max (len - 1 - 7) 256 ≡ len - 8)
  unfolding IsValid
  as_number h = ((omega arith, omega (arith, hi)), omega (arith, h))

  pub length_fields-IsValid :
      (fs : List Field) → All IsValid fs → All IsValid (length_fields tables.lengths len fs)
  unfolding length_fields
  length_fields-IsValid fs h = elim (le_cases len 8) [
    | inl short ↦ rw (has_slot len lo short) h
    | inr long ↦
        let symbol_valid = symbol_field-IsValid coder (own long) in
        elim (le_cases len 263) [
          | inl direct ↦
              let some_ : compute_length_extra len ≢ 0 =
                omega (arith, has_symbol len long direct, long) in
              rw (no_slot len long, ne→== some_) (symbol_valid, h)
          | inr big ↦
              rw (no_slot len long, eq→== (no_symbol len big))
                (symbol_valid, ((as_number big).0, h))
        ]
  ]

  decode_direct :
      (r r1 : BitReader)
      → 8 < len
      → len ≤ 263
      → Symbols.read_symbol tables.lengths r ≡ ok (compute_length_extra len, r1)
      → decode_length tables (compute_length_slot len) r ≡ ok (len - 1, r1)
  unfolding decode_length compute_length_slot
  decode_direct r r1 long direct e =
      let is = has_symbol len long direct in
      let some_ : compute_length_extra len ≢ 0 = omega (arith, is, long) in
      let back : compute_length_extra len + 7 ≡ len - 1 = omega (arith, is, long) in
      rw (no_slot len long, e) (rw (ne→== some_) (ap (λ (t : ℕ). ok (t, r1)) back))

  decode_number :
      (r r1 r2 : BitReader)
      → 263 < len
      → Symbols.read_symbol tables.lengths r ≡ ok (compute_length_extra len, r1)
      → read_u32_number r1 ≡ ok (max (len - 1 - 7) 256, r2)
      → decode_length tables (compute_length_slot len) r ≡ ok (len - 1, r2)
  unfolding decode_length compute_length_slot
  decode_number r r1 r2 big e1 e2 =
      let n : ℕ = max (len - 1 - 7) 256 in
      let long : 8 < len = omega (arith, big) in
      let wide : 256 ≤ n = omega arith in
      let back : n + 7 ≡ len - 1 = omega (arith, big) in
      let small : n + 7 < 2 ^ 32 = omega (arith, back, hi) in
      rw (no_slot len long, e1)
        (rw (eq→== (no_symbol len big), e2)
          (rw (le→ltb wide, lt→leb small) (ap (λ (t : ℕ). ok (t, r2)) back)))

  pub length_gives :
      (r : BitReader) (fs : List Field)
      → At r (length_fields tables.lengths len fs)
      → (r' : BitReader) × (decode_length tables (compute_length_slot len) r ≡ ok (len - 1, r'))
        × At r' fs
  unfolding decode_length length_fields compute_length_slot
  length_gives r fs a = elim (le_cases len 8) [
    | inl short ↦
        let some_ : len - 1 ≢ 0 = omega (arith, lo) in
        (r, rw (has_slot len lo short, ne→== some_) refl, rw (has_slot len lo short) at a)
    | inr long ↦ elim (le_cases len 263) [
      | inl direct ↦
          let is = has_symbol len long direct in
          let some_ : compute_length_extra len ≢ 0 = omega (arith, is, long) in
          let (r1, e1, a1) =
            next_symbol coder (own long) (rw (no_slot len long, ne→== some_) at a) in
          (r1, decode_direct r r1 long direct e1, a1)
      | inr big ↦
          let (r1, e1, a1) =
            next_symbol coder (own long) (rw (no_slot len long, eq→== (no_symbol len big)) at a) in
          let (r2, e2, a2) = next_number a1 in (r2, decode_number r r1 r2 big e1 e2, a2)
    ]
  ]
