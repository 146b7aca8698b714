-- ===== src/Lzx/Reread.antt =====
-- src/lzx/encode.rs and src/lzx/decode.rs: the symbols that the compressor writes, read again.
use msdelta.Base.{
  ℕ, ◌+◌, ◌-◌, ◌*◌, ◌/◌, ◌%◌, ◌^◌, ◌≤◌, ◌<◌, ◌≡◌, ◌≢◌, ◌⊎◌, inl, inr, refl, sym, ap, ◌∙◌, arith,
  List, [], ◌∷◌, All, bit_or, lt→ltb, le→ltb, lt→leb, ne→==, eq→==,
}
use msdelta.Base.Bits.Or.{bit_or_disjoint_left}
use msdelta.Errors.{ok}
use msdelta.Bitstream.Reader.{BitReader}
use msdelta.Bitstream.Writer.{BitWriter}
use msdelta.Bitstream.Fields.{Field, IsValid, write_field, write_fields}
use msdelta.Bitstream.Fields.At.{At}
use msdelta.Huffman.Symbols
use msdelta.Huffman.Reading.{HasCode}
use msdelta.Huffman.Coder.{IsCoder, symbol_field, symbol_field-IsValid, next_symbol}
use msdelta.Lzx.Symbols.{SegmentTables, decode_offset, decode_length, read_match, read_symbol}
use msdelta.Lzx.Matches.{
  compute_length_slot, compute_length_extra, compute_symbol_info, main_symbol, write_extras,
  write_length, encode_match, write_one, write_symbols,
}
use msdelta.Lzx.Far.{extra_fields}
use msdelta.Lzx.Offset.{HasAligned, IsOffset, offset}
use native.Mathlib.Nat.{mod-eq_of_lt}
use msdelta.Lzx.Length.{
  length_fields, write_length-fields, write_extras-fields, length_fields-IsValid, length_gives,
}

pub record AreCoders (tables : SegmentTables) : Type 0 where
  pub main : IsCoder tables.main
  pub lengths : IsCoder tables.lengths
  pub aligned : IsCoder tables.aligned

-- The main symbol of a match as it is counted.
abbrev pub counted_main : ℕ → ℕ → ℕ
counted_main raw len = main_symbol (compute_symbol_info raw).0 (compute_length_slot len)

-- A match whose counted symbols have codes.
pub record IsMatch (tables : SegmentTables) (raw len : ℕ) : Type 0 where
  pub offset_lt : raw < 2 ^ 32
  pub from_two : 2 ≤ len
  pub length_lt : len < 2 ^ 32
  pub has_main : HasCode tables.main.lengths (counted_main raw len)
  pub has_aligned : HasAligned tables raw
  pub has_length :
      compute_length_slot len ≡ 0 → HasCode tables.lengths.lengths (compute_length_extra len)

length_slot-lt : (len : ℕ) → compute_length_slot len < 8
unfolding compute_length_slot
length_slot-lt len = ground arith

main_symbol_lem : (slot l : ℕ) → slot < 71 → l < 8 → main_symbol slot l ≡ 0x100 + slot * 8 + l
main_symbol_lem slot l h k =
    let e : 0x100 + slot * 8 ≡ (slot + 32) * 8 = omega arith in
    ap (λ (t : ℕ). bit_or t l % 2 ^ 16) e
    ∙ ap (λ (t : ℕ). t % 2 ^ 16) (bit_or_disjoint_left 3 (slot + 32) l k)
    ∙ mod-eq_of_lt (omega (arith, h, k))
    ∙ omega arith

module _ (tables : SegmentTables) (coders : AreCoders tables) (raw len : ℕ)
    (m : IsMatch tables raw len) where
  abbrev o : IsOffset tables raw
  o = offset tables raw coders.aligned m.offset_lt m.has_aligned

  abbrev main_sym : ℕ
  main_sym = main_symbol o.slot (compute_length_slot len)

  -- The fields of the match, in front of others.
  abbrev match_fields : List Field → List Field
  match_fields fs =
      symbol_field tables.main main_sym
      ∷ extra_fields tables.aligned raw o.extras (length_fields tables.lengths len fs)

  main_has : HasCode tables.main.lengths main_sym
  main_has = rw (o.counted) at m.has_main

  match-IsValid : (fs : List Field) → All IsValid fs → All IsValid (match_fields fs)
  match-IsValid fs h = (
    symbol_field-IsValid coders.main main_has,
    o.fields-IsValid _
        (length_fields-IsValid tables coders.lengths len m.from_two m.length_lt m.has_length fs h),
  )

  match_written :
      (fs : List Field) (w : BitWriter)
      → (w' : BitWriter) × (encode_match tables w raw len ≡ ok w')
        × (write_fields (match_fields fs) w ≡ write_fields fs w')
  unfolding encode_match write_fields write_field Symbols.write_symbol
  match_written fs w =
      let w1 : BitWriter = Symbols.write_symbol tables.main w main_sym in
      let rest : List Field = length_fields tables.lengths len fs in
      (
        write_length tables.lengths len (write_extras tables.aligned raw o.extras w1),
        rw (o.parts_are, lt→leb main_has.0) refl,
        write_extras-fields tables.aligned raw o.extras rest w1
            ∙ write_length-fields tables.lengths len fs _,
      )

  match_decodes :
      (r r1 r2 r3 : BitReader)
      → Symbols.read_symbol tables.main r ≡ ok (main_sym, r1)
      → decode_offset tables o.slot r1 ≡ ok (raw, r2)
      → decode_length tables (compute_length_slot len) r2 ≡ ok (len - 1, r3)
      → read_symbol tables r ≡ ok ((raw, len), r3)
  unfolding read_symbol read_match
  match_decodes r r1 r2 r3 e1 e2 e3 =
      let l : ℕ = compute_length_slot len in
      let lt = length_slot-lt len in
      let is : main_sym ≡ 0x100 + o.slot * 8 + l = main_symbol_lem o.slot l o.slot_lt lt in
      let large : 256 ≤ main_sym = omega (arith, is) in
      let slot_is : (main_sym - 256) / 8 ≡ o.slot = omega (arith, is, lt) in
      let length_is : (main_sym - 256) % 8 ≡ l = omega (arith, is, lt) in
      let small : len - 1 + 1 < 2 ^ 32 = omega (arith, m.length_lt, m.from_two) in
      let back : len - 1 + 1 ≡ len = omega (arith, m.from_two) in
      rw e1 (
        rw (le→ltb large, slot_is, length_is)
          (rw e2 (rw e3 (rw (lt→leb small) (ap (λ (t : ℕ). ok ((raw, t), r3)) back)))))

  pub match_gives :
      (r : BitReader) (fs : List Field)
      → At r (match_fields fs)
      → (r' : BitReader) × (read_symbol tables r ≡ ok ((raw, len), r')) × At r' fs
  match_gives r fs a =
      let (r1, e1, a1) = next_symbol coders.main main_has a in
      let (r2, e2, a2) = o.gives r1 (length_fields tables.lengths len fs) a1 in
      let (r3, e3, a3) =
        length_gives tables coders.lengths len m.from_two m.length_lt m.has_length r2 fs a2 in
      (r3, match_decodes r r1 r2 r3 e1 e2 e3, a3)

-- A literal, or a match; what is counted for it has a code.
abbrev pub IsCounted : SegmentTables → ℕ × ℕ → Type 0
IsCounted tables s =
    ((s.1 ≡ 1) × (s.0 < 256) × HasCode tables.main.lengths s.0) ⊎ IsMatch tables s.0 s.1

module _ (tables : SegmentTables) (coders : AreCoders tables) where
  -- The fields of the symbols.
  unfoldable pub symbol_fields :
      (symbols : List (ℕ × ℕ)) → All (IsCounted tables) symbols → List Field
  symbol_fields [] h = []
  symbol_fields (s ∷ symbols) (inl literal, h) =
      symbol_field tables.main s.0 ∷ symbol_fields symbols h
  symbol_fields (s ∷ symbols) (inr m, h) =
      match_fields tables coders s.0 s.1 m (symbol_fields symbols h)

  pub symbols-IsValid :
      (symbols : List (ℕ × ℕ)) (h : All (IsCounted tables) symbols)
      → All IsValid (symbol_fields symbols h)
  unfolding symbol_fields
  symbols-IsValid [] h = tt
  symbols-IsValid (s ∷ symbols) (inl literal, h) =
      (symbol_field-IsValid coders.main literal.2, symbols-IsValid symbols h)
  symbols-IsValid (s ∷ symbols) (inr m, h) =
      match-IsValid tables coders s.0 s.1 m (symbol_fields symbols h) (symbols-IsValid symbols h)

  pub symbols_written :
      (symbols : List (ℕ × ℕ)) (h : All (IsCounted tables) symbols) (w : BitWriter)
      → write_symbols tables symbols w ≡ ok (write_fields (symbol_fields symbols h) w)
  unfolding symbol_fields write_symbols write_one write_fields write_field Symbols.write_symbol
  symbols_written [] h w = refl
  symbols_written (s ∷ symbols) (inl literal, h) w =
      rw (eq→== (literal.0), lt→ltb (literal.1)) (symbols_written symbols h _)
  symbols_written (s ∷ symbols) (inr m, h) w =
      let other : s.1 ≢ 1 = omega (arith, m.from_two) in
      let (w', e, same) = match_written tables coders s.0 s.1 m (symbol_fields symbols h) w in
      rw (ne→== other, e) (symbols_written symbols h w' ∙ ap ok (sym same))
