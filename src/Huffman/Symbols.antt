-- ===== src/Huffman/Symbols.antt =====
-- src/huffman.rs: `read_symbol` and `write_symbol`.
use msdelta.Base.{
  ℕ, ◌+◌, ◌/◌, ◌%◌, ◌^◌, min, bit_and, bit_or, length, get_or, leb, ◌==◌, if◌then◌else◌,
}
use msdelta.Errors.{Result, ok, err, malformed, ◌>>=◌}
use msdelta.Bitstream.Words.{trailing_zeros}
use msdelta.Bitstream.Reader.{BitReader, ensure_bits, remaining, buffered, peek, consume_unchecked}
use msdelta.Bitstream.Writer.{BitWriter, write_bits}
use msdelta.Huffman.Table.{HuffmanTable, no_slot, no_entry}

-- The place of the entry that the next bits select.
unfoldable pub entry_index : HuffmanTable → ℕ → ℕ
entry_index t accum =
    let with_sentinel = bit_or accum 0x8000_0000 in
    let ctz = trailing_zeros 32 with_sentinel in
    let slot = get_or t.slots ctz no_slot in
    let shifted = if leb 31 ctz then 0 else with_sentinel / 2 ^ (ctz + 1) in
    bit_and shifted slot.mask + slot.offset

unfoldable pub take_entry : HuffmanTable → ℕ → BitReader → Result (ℕ × BitReader)
take_entry t idx r =
    let entry = get_or t.entries idx no_entry in
    if leb (length t.entries) idx
    then err (malformed "huffman table index out of bounds")
    else if entry.len == 0
    then err (malformed "decoded symbol has zero length")
    else ok (entry.symbol, consume_unchecked entry.len r)

unfoldable pub read_symbol : HuffmanTable → BitReader → Result (ℕ × BitReader)
read_symbol t reader = if length t.entries == 0 then err (malformed "empty huffman table") else (do
  r ← ensure_bits (min 16 (remaining reader)) reader
  take_entry t (entry_index t (peek (min (buffered r) 32) r % 2 ^ 32)) r)

-- A symbol is below the table's count of symbols.
unfoldable pub write_symbol : HuffmanTable → BitWriter → ℕ → BitWriter
write_symbol t writer sym = write_bits (get_or t.codes sym 0) (get_or t.lengths sym 0) writer
