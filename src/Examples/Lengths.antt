-- ===== src/Examples/Lengths.antt =====
-- The code lengths of a segment at concrete values.
use msdelta.Base.{ℕ, ◌^◌, ◌<◌, ◌≡◌, inr, refl, arith, List, [], ◌∷◌, length, replicate, none, some}
use msdelta.Base.Bytes.{le_bytes}
use msdelta.Errors.{ok}
use msdelta.Bitstream.Reader.{BitReader}
use msdelta.Bitstream.Reader
use msdelta.Bitstream.Words.{shl64, shr64, mask64}
use msdelta.Bitstream.Writer
use msdelta.Bitstream.Writer.{BitWriter, finish}
use msdelta.Huffman.Arrays.{AllPairs}
use msdelta.Huffman.Codes.{codes_of, longest, count_lengths, base_codes, reverse_bits, assign_codes}
use msdelta.Huffman.Table.{HuffmanTable, table_of, from_lengths}
use msdelta.Huffman.Prefix.{Apart, IsPrefixFree}
use msdelta.Huffman.Unused.{after_unused, AllPairs-after_unused, IsPrefixFree-after_unused}
use msdelta.Huffman.Symbols
use msdelta.Lzx.Lengths.{read_compression_lengths}
use msdelta.Lzx.Runs
use msdelta.Lzx.Runs.{Item, encode_compression_lengths, write_items}
use msdelta.Lzx.Recoded.{AreCoded, read_compression_lengths-encode}

-- Codes for a length 0, for a length that is 2 more than before, and for the longest runs of
-- lengths that are as before.
abbrev from_run : ℕ → List ℕ
from_run x = x ∷ []

abbrev from_change : ℕ → ℕ → List ℕ
from_change x y = x ∷ after_unused 19 (from_run y)

abbrev from_zero : ℕ → ℕ → ℕ → List ℕ
from_zero x y z = x ∷ after_unused 17 (from_change y z)

abbrev pretree : HuffmanTable
pretree = table_of (from_zero 2 2 1) (codes_of (from_zero 2 2 1))

-- One symbol gets a code of two bits.
abbrev old_lengths : List ℕ
old_lengths = replicate 872 0

abbrev new_lengths : List ℕ
new_lengths = 2 ∷ replicate 871 0

pretree_made : from_lengths (from_zero 2 2 1) ≡ ok pretree
unfolding from_lengths longest
pretree_made = refl

pretree_codes : codes_of (from_zero 2 2 1) ≡ from_zero 0 2 1
unfolding codes_of longest count_lengths base_codes reverse_bits assign_codes
pretree_codes = refl

pretree-IsPrefixFree : IsPrefixFree (from_zero 2 2 1) (codes_of (from_zero 2 2 1))
pretree-IsPrefixFree =
    let run_free : IsPrefixFree (from_run 1) (from_run 1) = (tt, tt) in
    let change_free : IsPrefixFree (from_change 2 1) (from_change 2 1) = (
      AllPairs-after_unused 19 2 2 (from_run 1) (from_run 1) (omega arith),
      IsPrefixFree-after_unused 19 (from_run 1) (from_run 1) run_free,
    ) in
    let others : AllPairs (Apart 2 0) (from_change 2 1) (from_change 2 1) = (
      inr (inr (omega arith)),
      AllPairs-after_unused 19 2 0 (from_run 1) (from_run 1) (omega arith),
    ) in
    rw pretree_codes (
      AllPairs-after_unused 17 2 0 (from_change 2 1) (from_change 2 1) others,
      IsPrefixFree-after_unused 17 (from_change 2 1) (from_change 2 1) change_free,
    )

abbrev long_run : Item
long_run = (38, some (63, 6))

abbrev items : List Item
items =
    (18, none)
    ∷ long_run
    ∷ long_run
    ∷ long_run
    ∷ long_run
    ∷ long_run
    ∷ long_run
    ∷ (38, some (44, 6))
    ∷ (0, none)
    ∷ []

items_are : encode_compression_lengths new_lengths old_lengths ≡ items
unfolding encode_compression_lengths Runs.items_from Runs.item_at Runs.kept_run Runs.same_run
    Runs.lengthen Runs.single Runs.encode_run_count
items_are = refl

items-AreCoded : AreCoded pretree (encode_compression_lengths new_lengths old_lengths)
unfolding table_of
items-AreCoded = rw items_are (omega arith)

file_short :
    length
      (finish (write_items pretree (encode_compression_lengths new_lengths old_lengths) Writer.new))
    < 2 ^ 29
unfolding table_of codes_of longest count_lengths base_codes reverse_bits assign_codes write_items
    Runs.write_extra Symbols.write_symbol Writer.new Writer.write_bits Writer.write_within
    Writer.write_over Writer.flush Writer.flush_words Writer.put_padding Writer.finish Writer.pad_by
    Writer.flush_final shl64 shr64 mask64 le_bytes
file_short = rw items_are (omega arith)

read_compression_lengths-encode_example :
    (r : BitReader) × (Reader.new (
        finish
          (write_items pretree (encode_compression_lengths new_lengths old_lengths) Writer.new))
      ≡ ok r)
    × (r' : BitReader) × (read_compression_lengths r pretree old_lengths ≡ ok (new_lengths, r'))
read_compression_lengths-encode_example =
    read_compression_lengths-encode (from_zero 2 2 1) new_lengths old_lengths pretree pretree_made
      pretree-IsPrefixFree refl refl (omega arith) (omega arith) items-AreCoded file_short
