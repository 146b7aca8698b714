-- ===== src/Lzx/Far.antt =====
-- src/lzx/encode.rs and src/lzx/decode.rs: the distances in slots of their own, written and read.
use msdelta.Base.{
  ℕ, ◌+◌, ◌-◌, ◌*◌, ◌/◌, ◌%◌, ◌^◌, ◌≤◌, ◌<◌, ◌≡◌, ◌≢◌, inl, inr, refl, sym, ap, ◌∙◌, arith, List,
  [], ◌∷◌, All, bit_and, bit_or, ltb, ◌==◌, if◌then◌else◌, lt→ltb, le→ltb, lt→leb, ne→==, eq→==,
  le_cases,
}
use msdelta.Base.Bits.{bit_and_mask, two-pow-pos}
use msdelta.Base.Bits.Or.{bit_or_disjoint_left}
use msdelta.Errors.{ok}
use msdelta.Bitstream.Reader.{BitReader}
use msdelta.Bitstream.Fields.{Field, plain, IsValid}
use msdelta.Bitstream.Fields.At.{At, next_plain}
use msdelta.Huffman.Table.{HuffmanTable}
use msdelta.Huffman.Reading.{HasCode}
use msdelta.Huffman.Coder.{IsCoder, symbol_field, symbol_field-IsValid, next_symbol}
use msdelta.Lzx.Ops.{raw_offset_base}
use msdelta.Lzx.Symbols.{
  SegmentTables, decode_extra_value, decode_short, decode_aligned, decode_distance, decode_far,
}
use msdelta.Lzx.Matches.{base_of, half_of, slot_extra, aligned_of}
use msdelta.Lzx.Slots.{lowest, IsIn, wide, lowest_wide}
use native.Mathlib.Nat.{mod-eq_of_lt, mod-lt, add-mul-mod_self_left}

-- The fields that the bits behind the main symbol are written as, in front of others.
unfoldable pub extra_fields : HuffmanTable → ℕ → List (ℕ × ℕ) → List Field → List Field
extra_fields aligned raw_offset [] fs = fs
extra_fields aligned raw_offset ((val, bits) ∷ extras) fs =
    let rest = extra_fields aligned raw_offset extras fs in
    if val == 2 ^ 64 - 1
    then symbol_field aligned (aligned_of raw_offset) ∷ rest
    else if ltb 0 bits
    then plain val bits ∷ rest
    else rest

module _ (tables : SegmentTables) (coder : IsCoder tables.aligned) (adj dist raw : ℕ)
    (is_in : IsIn adj dist) (small : dist < 2 ^ 32) (is_raw : raw ≡ dist + raw_offset_base) where
  abbrev half : ℕ
  half = half_of adj

  abbrev rest : ℕ
  rest = dist - lowest adj

  rest-lt : rest < 2 ^ half
  rest-lt = omega (arith, is_in.from_lowest, is_in.below)

  short_bits : bit_or (base_of adj * 2 ^ half) rest ≡ dist
  short_bits =
      bit_or_disjoint_left half (base_of adj) rest rest-lt ∙ omega (arith, is_in.from_lowest)

  fields_short :
      (fs : List Field)
      → half < 4
      → 0 < half
      → extra_fields tables.aligned raw (slot_extra adj dist) fs ≡ plain rest half ∷ fs
  unfolding extra_fields slot_extra
  fields_short fs h some_ =
      let plain_ : rest ≢ 2 ^ 64 - 1 = omega (arith, small) in
      rw (lt→ltb h, lt→ltb some_) (rw (ne→== plain_, lt→ltb some_) refl)

  reads_short :
      (r : BitReader) (fs : List Field)
      → half < 4
      → At r (extra_fields tables.aligned raw (slot_extra adj dist) fs)
      → (r' : BitReader) × (decode_short (base_of adj) half r ≡ ok (dist, r')) × At r' fs
  unfolding decode_short extra_fields slot_extra
  reads_short r fs h a = elim (le_cases half 0) [
    | inl none_ ↦
        let z : half ≡ 0 = omega (arith, none_) in
        let whole : base_of adj ≡ dist = omega (
          arith,
          is_in.from_lowest,
          is_in.below,
          ap (λ (t : ℕ). 2 ^ t) z,
          ap (λ (t : ℕ). base_of adj * 2 ^ t) z,
        ) in
        (r, rw (eq→== z) (ap (λ (t : ℕ). ok (t, r)) whole), rw (lt→ltb h, le→ltb none_) at a)
    | inr some_ ↦
        let other : half ≢ 0 = omega (arith, some_) in
        let (r', e, a') = next_plain (rw (fields_short fs h some_) at a) in
        (r', rw (ne→== other, e) (ap (λ (t : ℕ). ok (t, r')) short_bits), a')
  ]

  abbrev high : ℕ
  high = half - 4

  abbrev front_bits : ℕ
  front_bits = dist / 16 % 2 ^ high

  front_is : 4 ≤ half → base_of adj * 2 ^ high + front_bits ≡ dist / 16
  front_is h =
      let b : ℕ = base_of adj * 2 ^ high in
      let lo : b ≤ dist / 16 = omega (arith, is_in.from_lowest, lowest_wide adj dist h) in
      let hi : dist / 16 < b + 2 ^ high =
        omega (arith, is_in.below, lowest_wide adj dist h, wide adj dist h) in
      let split : dist / 16 ≡ dist / 16 - b + 2 ^ high * base_of adj = omega (arith, lo) in
      let rest_is : front_bits ≡ dist / 16 - b =
        ap (λ (t : ℕ). t % 2 ^ high) split
        ∙ add-mul-mod_self_left (dist / 16 - b) (2 ^ high) (base_of adj)
        ∙ mod-eq_of_lt (omega (arith, hi, two-pow-pos high)) in
      omega (arith, rest_is, lo)

  aligned_is : aligned_of raw ≡ dist % 16
  aligned_is =
      let e : raw - raw_offset_base ≡ dist = omega (arith, is_raw) in rw e (bit_and_mask 4 dist)

  aligned_bits : bit_or (dist / 16 * 16 % 2 ^ 32) (aligned_of raw) ≡ dist
  aligned_bits =
      let fits : dist / 16 * 16 % 2 ^ 32 ≡ dist / 16 * 16 = omega (arith, small) in
      rw (fits, aligned_is)
        (bit_or_disjoint_left 4 (dist / 16) (dist % 16) (omega arith) ∙ omega arith)

  front_joined :
      4 ≤ half → bit_or (base_of adj * 2 ^ high % 2 ^ 32) (front_bits % 2 ^ 32) ≡ dist / 16
  front_joined h =
      let is = front_is h in
      let b : base_of adj * 2 ^ high % 2 ^ 32 ≡ base_of adj * 2 ^ high =
        mod-eq_of_lt (omega (arith, is, small)) in
      let f : front_bits % 2 ^ 32 ≡ front_bits = mod-eq_of_lt (omega (arith, is, small)) in
      rw (b, f)
        (bit_or_disjoint_left high (base_of adj) front_bits (mod-lt (dist / 16) (two-pow-pos high))
          ∙ is)

  fields_wide :
      (fs : List Field)
      → 4 ≤ half
      → 0 < high
      → extra_fields tables.aligned raw (slot_extra adj dist) fs
        ≡ plain front_bits high ∷ symbol_field tables.aligned (aligned_of raw) ∷ fs
  unfolding extra_fields slot_extra
  fields_wide fs h some_ =
      let is : bit_and (dist / 16) (2 ^ high - 1) ≡ front_bits = bit_and_mask high (dist / 16) in
      let plain_ : front_bits ≢ 2 ^ 64 - 1 = omega (arith, small, front_is h) in
      rw (le→ltb h, lt→ltb some_, is) (rw (ne→== plain_, lt→ltb some_) refl)

  reads_aligned :
      (r : BitReader) (fs : List Field)
      → 4 ≤ half
      → HasCode tables.aligned.lengths (aligned_of raw)
      → At r (extra_fields tables.aligned raw (slot_extra adj dist) fs)
      → (r' : BitReader) × (decode_aligned tables (base_of adj) (half - 4) r ≡ ok (dist, r'))
        × At r' fs
  unfolding decode_aligned extra_fields slot_extra
  reads_aligned r fs h has a = elim (le_cases high 0) [
    | inl none_ ↦
        let z : high ≡ 0 = omega (arith, none_) in
        let one : 2 ^ high ≡ 1 = omega (arith, ap (λ (t : ℕ). 2 ^ t) z) in
        let whole : base_of adj ≡ dist / 16 = omega (
          arith,
          front_is h,
          ap (λ (t : ℕ). base_of adj * t) one,
          mod-lt (dist / 16) (two-pow-pos high),
          one,
        ) in
        let a' : At r (symbol_field tables.aligned (aligned_of raw) ∷ fs) =
          rw (le→ltb h, le→ltb none_) at a in
        let (r', e, a1) = next_symbol coder has a' in
        (r', rw (le→ltb none_, whole, e) (ap (λ (t : ℕ). ok (t, r')) aligned_bits), a1)
    | inr some_ ↦
        let (r1, e1, a1) = next_plain (rw (fields_wide fs h some_) at a) in
        let (r2, e2, a2) = next_symbol coder has a1 in
        (
          r2,
          rw (lt→ltb some_, e1) (rw (front_joined h, e2) (ap (λ (t : ℕ). ok (t, r2)) aligned_bits)),
          a2,
        )
  ]

  -- A distance of a slot is read back with its offset.
  pub far_gives :
      (r : BitReader) (fs : List Field)
      → 4 ≤ adj
      → adj < 64
      → raw < 2 ^ 32
      → (4 ≤ half → HasCode tables.aligned.lengths (aligned_of raw))
      → At r (extra_fields tables.aligned raw (slot_extra adj dist) fs)
      → (r' : BitReader) × (decode_far tables adj r ≡ ok (raw, r')) × At r' fs
  unfolding decode_far decode_extra_value decode_distance
  far_gives r fs h k l has a =
      let some_ : 0 < adj = omega (arith, h) in
      let large : 3 < adj = omega (arith, h) in
      let fits : adj ≤ 63 = omega (arith, k) in
      let below : dist + raw_offset_base < 2 ^ 32 = omega (arith, l, is_raw) in
      elim (le_cases 4 half) [
        | inr short ↦
            let (r', e, a') = reads_short r fs short a in
            (
              r',
              rw (lt→ltb some_, le→ltb fits, lt→leb large, lt→ltb short, e)
                  (rw (lt→leb below) (ap (λ (t : ℕ). ok (t, r')) (sym is_raw))),
              a',
            )
        | inl long ↦
            let (r', e, a') = reads_aligned r fs long (has long) a in
            (
              r',
              rw (lt→ltb some_, le→ltb fits, lt→leb large, le→ltb long, e)
                  (rw (lt→leb below) (ap (λ (t : ℕ). ok (t, r')) (sym is_raw))),
              a',
            )
      ]

  pub far_fields-IsValid :
      (fs : List Field)
      → adj < 64
      → (4 ≤ half → HasCode tables.aligned.lengths (aligned_of raw))
      → All IsValid fs
      → All IsValid (extra_fields tables.aligned raw (slot_extra adj dist) fs)
  unfolding IsValid extra_fields slot_extra
  far_fields-IsValid fs k has h = elim (le_cases 4 half) [
    | inr short ↦ elim (le_cases half 0) [
      | inl none_ ↦ rw (lt→ltb short, le→ltb none_) h
      | inr some_ ↦ rw (fields_short fs short some_) ((omega (arith, k), rest-lt), h)
    ]
    | inl long ↦
        let aligned_valid = symbol_field-IsValid coder (has long) in
        elim (le_cases high 0) [
          | inl none_ ↦ rw (le→ltb long, le→ltb none_) (aligned_valid, h)
          | inr some_ ↦
              rw (fields_wide fs long some_)
                ((omega (arith, k), mod-lt (dist / 16) (two-pow-pos high)), (aligned_valid, h))
        ]
  ]
