-- ===== src/Huffman/Reading.antt =====
-- src/huffman.rs: reading the symbol whose code comes next.
use msdelta.Base.{
  ℕ, ◌%◌, ◌^◌, min, ◌≤◌, ◌<◌, ◌≡◌, ◌≢◌, refl, sym, ap, ◌∙◌, arith, List, length, get_or, lt→leb,
  ne→==,
}
use msdelta.Base.Bits.{mod-mod_two-pow, two-pow-pos}
use msdelta.Errors.{ok}
use msdelta.Bitstream.Words.Laws.{bit_and-mask64}
use msdelta.Bitstream.Stream.{Stream, skip}
use msdelta.Bitstream.Reader.{BitReader, remaining, peek, buffered, ensure_bits, consume_unchecked}
use msdelta.Bitstream.Reader.Holds.{Holds}
use msdelta.Bitstream.Reader.Reads.{ensured, ensure_lem, consume-Holds, low_bits}
use msdelta.Bitstream.Reader.Numbers.{Begins, low_part, remaining_lem}
use msdelta.Huffman.Table.{HuffmanTable, table_of}
use msdelta.Huffman.Symbols.{take_entry, read_symbol}
use msdelta.Huffman.Arrays.{AllPairs}
use msdelta.Huffman.Shape.{Matches}
use msdelta.Huffman.Prefix.{IsCode, IsPrefixFree, AllPairs_at}
use msdelta.Huffman.Found.{Finds, finds}
use native.Mathlib.Nat.{mod-lt}

-- The symbols that a table of code lengths has codes for.
abbrev pub HasCode : List ℕ → ℕ → Type 0
HasCode ls sym = (sym < length ls) × (0 < get_or ls sym 0) × (sym < 2 ^ 16)

peek_lem : (n : ℕ) (r : BitReader) → 0 < n → n < 64 → peek n r ≡ r.accum % 2 ^ n
unfolding peek
peek_lem n r h lt =
    let some_ : n ≢ 0 = omega (arith, h) in rw (ne→== some_) (bit_and-mask64 r.accum n lt)

-- Reading the symbol `p` where its code stands next.
module _ (ls cs : List ℕ) (codes : AllPairs IsCode ls cs) (free : IsPrefixFree ls cs) (p : ℕ)
    (has : HasCode ls p) (hc : p < length cs) {r : BitReader} {s : Stream} (h : Holds r s)
    (b : Begins s (record { value = get_or cs p 0; width = get_or ls p 0 })) where
  abbrev ahead : ℕ
  ahead = min 16 (remaining r)

  abbrev filled : BitReader
  filled = ensured ahead r

  abbrev bits : ℕ
  bits = peek (min (buffered filled) 32) filled % 2 ^ 32

  below : bits < 2 ^ 32
  below = mod-lt _ (two-pow-pos 32)

  IsCode-is : IsCode (get_or ls p 0) (get_or cs p 0)
  IsCode-is = AllPairs_at IsCode ls cs p has.0 hc codes

  is_ahead : get_or ls p 0 ≤ ahead
  is_ahead = omega (arith, IsCode-is.0, b.room, remaining_lem h)

  refilled : (ensure_bits ahead r ≡ ok filled) × Holds filled s × (ahead ≤ filled.bits)
  refilled = ensure_lem ahead h (omega arith) (omega (arith, remaining_lem h))

  next_bits : Matches bits (get_or ls p 0) (get_or cs p 0)
  unfolding buffered
  next_bits =
      let l : ℕ = get_or ls p 0 in
      let w : ℕ = min filled.bits 32 in
      let wide : l ≤ w = omega (arith, is_ahead, refilled.2, IsCode-is.0) in
      let peeked : peek w filled ≡ filled.accum % 2 ^ w =
        peek_lem w filled (omega (arith, has.1, wide)) (omega arith) in
      let low : filled.accum % 2 ^ l ≡ s.value % 2 ^ l =
        low_bits l refilled.1 has.1 (omega (arith, wide)) in
      let own : s.value % 2 ^ l ≡ get_or cs p 0 =
        ap (λ (t : ℕ). t % 2 ^ l) (b.value_is ∙ omega arith)
        ∙ low_part (get_or cs p 0) b.rest l IsCode-is.1 in
      mod-mod_two-pow (peek w filled) l 32 (omega (arith, wide))
      ∙ ap (λ (t : ℕ). t % 2 ^ l) peeked
      ∙ mod-mod_two-pow filled.accum l w wide
      ∙ low
      ∙ own

  found : Finds ls cs codes free p has.0 hc has.1 bits below next_bits
  found = finds ls cs codes free p has.0 hc has.1 bits below next_bits

  pub read_next :
      (r' : BitReader) × (read_symbol (table_of ls cs) r ≡ ok (p, r'))
      × Holds r' (skip (get_or ls p 0) s)
  unfolding read_symbol take_entry buffered
  read_next =
      let t : HuffmanTable = table_of ls cs in
      let entries : length t.entries ≢ 0 = omega (arith, found.0) in
      let same : p % 2 ^ 16 ≡ p = omega (arith, has.2) in
      let used : get_or ls p 0 ≢ 0 = omega (arith, has.1) in
      (
        consume_unchecked (get_or ls p 0) filled,
        rw (ne→== entries, refilled.0, lt→leb found.0, found.1, ne→== used, same) refl,
        consume-Holds (get_or ls p 0) refilled.1 (omega (arith, is_ahead, refilled.2))
            (omega (arith, IsCode-is.0)),
      )
