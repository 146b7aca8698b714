-- ===== src/Examples/Huffman.antt =====
-- A Huffman table at concrete code lengths.
use msdelta.Base.{ℕ, ◌<◌, ◌≡◌, refl, arith, List, [], ◌∷◌, length, All, ◌^◌}
use msdelta.Errors.{ok}
use msdelta.Bitstream.Reader.{BitReader}
use msdelta.Huffman.Codes.{codes_of, longest, count_lengths, base_codes, reverse_bits, assign_codes}
use msdelta.Huffman.Table.{HuffmanTable, table_of, from_lengths}
use msdelta.Huffman.Prefix.{IsPrefixFree}
use msdelta.Huffman.Blocks.{occurrences, covered, IsComplete}
use msdelta.Huffman.Complete.{codes_of-IsPrefixFree}
use msdelta.Huffman.Reading.{HasCode}
use msdelta.Bitstream.Writer
use msdelta.Bitstream.Words.{shl64, shr64, mask64}
use msdelta.Huffman.Symbols.{write_symbol}
use msdelta.Huffman.Sequence.{
  write_symbols, encode_symbols, decode_symbols, decode_symbols-encode_symbols,
}

-- Codes of one and two bits; the second symbol has none.
abbrev three_codes : List ℕ
three_codes = 1 ∷ 0 ∷ 2 ∷ 2 ∷ []

abbrev small_table : HuffmanTable
small_table = table_of three_codes (codes_of three_codes)

abbrev some_symbols : List ℕ
some_symbols = 3 ∷ 0 ∷ 0 ∷ 2 ∷ 3 ∷ []

small_table_made : from_lengths three_codes ≡ ok small_table
unfolding from_lengths longest
small_table_made = refl

codes_are : codes_of three_codes ≡ 1 ∷ 0 ∷ 0 ∷ 2 ∷ []
unfolding codes_of longest count_lengths base_codes reverse_bits assign_codes
codes_are = refl

three_codes-IsPrefixFree : IsPrefixFree three_codes (codes_of three_codes)
three_codes-IsPrefixFree = rw codes_are (omega arith)

some_symbols-HasCode : All (HasCode three_codes) some_symbols
some_symbols-HasCode = omega arith

encoded_short : length (encode_symbols small_table some_symbols) < 2 ^ 29
unfolding encode_symbols write_symbols write_symbol table_of codes_of longest count_lengths
    base_codes reverse_bits assign_codes Writer.new Writer.write_bits Writer.write_within
    Writer.write_over Writer.flush Writer.flush_words Writer.put_padding Writer.finish Writer.pad_by
    Writer.flush_final shl64 shr64 mask64
encoded_short = omega arith

decode_symbols-encode_symbols_example :
    (r : BitReader) × (decode_symbols small_table 5 (encode_symbols small_table some_symbols)
      ≡ ok (some_symbols, r))
decode_symbols-encode_symbols_example =
    decode_symbols-encode_symbols three_codes some_symbols small_table small_table_made
      three_codes-IsPrefixFree some_symbols-HasCode encoded_short

three_codes-IsComplete : IsComplete three_codes
unfolding occurrences covered longest
three_codes-IsComplete = refl

codes_of-IsPrefixFree_example : IsPrefixFree three_codes (codes_of three_codes)
codes_of-IsPrefixFree_example = codes_of-IsPrefixFree three_codes three_codes-IsComplete

-- The codes of the lengths 1 and 2 leave a place of the tree free, and one begins with the other.
incomplete_codes : codes_of (1 ∷ 2 ∷ []) ≡ 0 ∷ 0 ∷ []
unfolding codes_of longest count_lengths base_codes reverse_bits assign_codes
incomplete_codes = refl
