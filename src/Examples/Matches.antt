-- ===== src/Examples/Matches.antt =====
-- A file of a literal and two matches.
use msdelta.Base.{
  ℕ, ◌+◌, ◌^◌, ◌<◌, ◌≡◌, inl, inr, refl, sym, ◌∙◌, arith, List, [], ◌∷◌, length, All,
}
use msdelta.Errors.{ok, ok-injective}
use msdelta.Bitstream.Reader.{BitReader}
use msdelta.Bitstream.Reader
use msdelta.Bitstream.Words.{shl64, shr64, mask64, leading_zeros}
use msdelta.Bitstream.Writer
use msdelta.Bitstream.Writer.{BitWriter, finish}
use msdelta.Huffman.Codes.{codes_of, longest, count_lengths, base_codes, reverse_bits, assign_codes}
use msdelta.Huffman.Table.{table_of, from_lengths}
use msdelta.Huffman.Prefix.{Apart, IsPrefixFree}
use msdelta.Huffman.Arrays.{AllPairs}
use msdelta.Huffman.Unused.{after_unused, AllPairs-after_unused, IsPrefixFree-after_unused}
use msdelta.Huffman.Symbols
use msdelta.Lzx.Symbols.{SegmentTables, from_parts}
use msdelta.Lzx.Matches
use msdelta.Lzx.Matches.{write_symbols}
use msdelta.Lzx.Reread.{IsCounted, IsMatch}
use msdelta.Lzx.Written.{read_symbols, read_symbols-write_symbols}
use mathlib.Core.Path.{subst}

-- The letter A; the copy of 3 bytes from the mapped place; the long copies from 100 back.
abbrev from_long : ℕ → List ℕ
from_long x = x ∷ []

abbrev from_copy : ℕ → ℕ → List ℕ
from_copy x y = x ∷ after_unused 133 (from_long y)

abbrev from_letter : ℕ → ℕ → ℕ → List ℕ
from_letter x y z = x ∷ after_unused 216 (from_copy y z)

abbrev main_lengths : List ℕ
main_lengths = after_unused 65 (from_letter 1 2 2)

abbrev long_only : List ℕ
long_only = 1 ∷ []

abbrev fours_only : List ℕ
fours_only = after_unused 4 (1 ∷ [])

abbrev segment : SegmentTables
segment = record {
  main = table_of main_lengths (codes_of main_lengths);
  lengths = table_of long_only (codes_of long_only);
  aligned = table_of fours_only (codes_of fours_only);
}

abbrev file_symbols : List (ℕ × ℕ)
file_symbols = (65, 1) ∷ (0x5_4000, 3) ∷ (0x5_4003 + 100, 300) ∷ []

segment_made : from_parts main_lengths long_only fours_only ≡ ok segment
unfolding from_parts from_lengths longest
segment_made = refl

main_codes : codes_of main_lengths ≡ after_unused 65 (from_letter 1 0 2)
unfolding codes_of longest count_lengths base_codes reverse_bits assign_codes
main_codes = refl

main_lengths-IsPrefixFree : IsPrefixFree main_lengths (codes_of main_lengths)
main_lengths-IsPrefixFree =
    let long_free : IsPrefixFree (from_long 2) (from_long 2) = omega arith in
    let copy_free : IsPrefixFree (from_copy 2 2) (from_copy 0 2) = (
      AllPairs-after_unused 133 2 0 (from_long 2) (from_long 2) (omega arith),
      IsPrefixFree-after_unused 133 (from_long 2) (from_long 2) long_free,
    ) in
    let others : AllPairs (Apart 1 1) (from_copy 2 2) (from_copy 0 2) = (
      inr (inr (omega arith)),
      AllPairs-after_unused 133 1 1 (from_long 2) (from_long 2) (omega arith),
    ) in
    let letter_free : IsPrefixFree (from_letter 1 2 2) (from_letter 1 0 2) = (
      AllPairs-after_unused 216 1 1 (from_copy 2 2) (from_copy 0 2) others,
      IsPrefixFree-after_unused 216 (from_copy 2 2) (from_copy 0 2) copy_free,
    ) in
    rw main_codes (IsPrefixFree-after_unused 65 (from_letter 1 2 2) (from_letter 1 0 2) letter_free)

long_only-IsPrefixFree : IsPrefixFree long_only (codes_of long_only)
unfolding codes_of assign_codes
long_only-IsPrefixFree = (tt, tt)

fours_only-IsPrefixFree : IsPrefixFree fours_only (codes_of fours_only)
unfolding codes_of assign_codes longest count_lengths base_codes reverse_bits
fours_only-IsPrefixFree = IsPrefixFree-after_unused 4 (1 ∷ []) (0 ∷ []) (tt, tt)

copied-IsMatch : IsMatch segment 0x5_4000 3
unfolding table_of Matches.compute_symbol_info Matches.compute_length_slot
copied-IsMatch = record {
  offset_lt = omega arith;
  from_two = omega arith;
  length_lt = omega arith;
  has_main = omega arith;
  has_aligned = λ e. cc;
  has_length = λ e. omega arith;
}

long-IsMatch : IsMatch segment (0x5_4003 + 100) 300
unfolding table_of Matches.compute_symbol_info Matches.compute_length_slot
    Matches.compute_length_extra Matches.search_slot Matches.fits_slot Matches.fits_short
    Matches.fits_aligned Matches.info_of
long-IsMatch = record {
  offset_lt = omega arith;
  from_two = omega arith;
  length_lt = omega arith;
  has_main = omega arith;
  has_aligned = λ e. omega arith;
  has_length = λ e. omega arith;
}

file_symbols-IsCounted : All (IsCounted segment) file_symbols
unfolding table_of
file_symbols-IsCounted =
    (inl (refl, omega arith, omega arith), (inr copied-IsMatch, (inr long-IsMatch, tt)))

file_written :
    (w : BitWriter) × (write_symbols segment file_symbols Writer.new ≡ ok w)
    × (length (finish w) < 2 ^ 29)
unfolding table_of codes_of longest count_lengths base_codes reverse_bits assign_codes write_symbols
    Matches.write_one Matches.encode_match Matches.offset_parts Matches.far_slot Matches.found_slot
    Matches.search_slot Matches.fits_slot Matches.fits_short Matches.fits_aligned Matches.slot_extra
    Matches.compute_length_slot Matches.compute_length_extra Matches.write_extras
    Matches.write_length Symbols.write_symbol Writer.new Writer.write_bits Writer.write_within
    Writer.write_over Writer.flush Writer.flush_words Writer.put_padding Writer.finish Writer.pad_by
    Writer.flush_final Writer.write_u32_number shl64 shr64 mask64 leading_zeros
file_written = (_, refl, omega arith)

file_small :
    (w : BitWriter)
    → write_symbols segment file_symbols Writer.new ≡ ok w
    → length (finish w) < 2 ^ 29
file_small w e =
    let (v, same, small) = file_written in
    subst (λ u. length (finish u) < 2 ^ 29) (ok-injective (sym same ∙ e)) small

read_symbols-write_symbols_example :
    (w : BitWriter) × (write_symbols segment file_symbols Writer.new ≡ ok w)
    × (r : BitReader) × (Reader.new (finish w) ≡ ok r)
    × (r' : BitReader) × (read_symbols segment 3 r ≡ ok (file_symbols, r'))
read_symbols-write_symbols_example =
    read_symbols-write_symbols main_lengths long_only fours_only segment file_symbols segment_made
      main_lengths-IsPrefixFree long_only-IsPrefixFree fours_only-IsPrefixFree
      file_symbols-IsCounted file_small
