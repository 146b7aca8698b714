-- ===== src/Lzx/Symbols.antt =====
-- src/lzx/decode.rs and src/lzx/format.rs: the tables of a segment, and a symbol read with them. A
-- sum of an i32 stays in its range, so that only the last cast wraps.
use msdelta.Base.{
  ℕ, ◌+◌, ◌-◌, ◌*◌, ◌/◌, ◌%◌, ◌^◌, bit_and, bit_or, List, length, take, drop, ltb, leb, ◌==◌,
  if◌then◌else◌,
}
use msdelta.Base.Int.{ℤ, pos, ◌+ℤ◌, ◌-ℤ◌, as_u32}
use msdelta.Errors.{Result, ok, err, malformed, ◌>>=◌}
use msdelta.Bitstream.Reader.{BitReader, read_bits, read_u32_number}
use msdelta.Huffman.Table.{HuffmanTable, from_lengths}
use msdelta.Huffman.Symbols
use msdelta.Lzx.Format.{flat_code_lengths}
use msdelta.Lzx.Ops.{offset_bias, raw_offset_base}

abbrev pub main_symbols : ℕ
main_symbols = 600

abbrev pub length_symbols : ℕ
length_symbols = 256

abbrev pub aligned_symbols : ℕ
aligned_symbols = 16

abbrev pub total_lengths : ℕ
total_lengths = 872

pub record SegmentTables : Type 0 where
  pub main : HuffmanTable
  pub lengths : HuffmanTable
  pub aligned : HuffmanTable

unfoldable pub from_parts : List ℕ → List ℕ → List ℕ → Result SegmentTables
from_parts main_lengths length_lengths aligned_lengths = do
  main ← from_lengths main_lengths
  lengths ← from_lengths length_lengths
  aligned ← from_lengths aligned_lengths
  ok (record { main = main; lengths = lengths; aligned = aligned })

unfoldable pub from_flat : Result SegmentTables
from_flat =
    from_parts (flat_code_lengths main_symbols) (flat_code_lengths length_symbols)
      (flat_code_lengths aligned_symbols)

unfoldable pub from_all_lengths : List ℕ → Result SegmentTables
from_all_lengths all =
    if length all == total_lengths
    then from_parts (take main_symbols all) (take length_symbols (drop main_symbols all))
        (drop (main_symbols + length_symbols) all)
    else err (malformed "wrong total compression lengths")

unfoldable pub decode_extra_value : ℕ → BitReader → Result (ℕ × BitReader)
decode_extra_value adj_slot r = if ltb 0 adj_slot then ok (adj_slot, r) else (do
  (first, r1) ← read_bits 1 r
  if first == 0 then (do (val, r2) ← read_bits 2 r1; ok (val + 0x24, r2)) else (do
    (second, r2) ← read_bits 1 r1
    if second == 0
        then (do (val, r3) ← read_bits 3 r2; ok (val + 4 + 0x24, r3))
        else (do (val, r3) ← read_bits 4 r2; ok (val + 8 + 4 + 0x24, r3))))

-- The offsets around the place that the rift tables give.
unfoldable pub decode_near : ℕ → BitReader → Result (ℤ × BitReader)
decode_near slot r =
    if slot == 0
    then (do (raw, r1) ← read_bits 14 r; ok (pos (bit_and raw 0x3fff) -ℤ pos 0x2000, r1))
    else if slot == 1
    then (do
      (raw, r1) ← read_bits 16 r
      ok (pos raw -ℤ pos (if ltb raw 0x8000 then 0xa000 else 0x6000), r1))
    else (do
      (raw, r1) ← read_bits 18 r
      ok (pos raw -ℤ pos (if leb 0x2_0000 raw then 0x1_6000 else 0x2_a000), r1))

-- `half` bits below a distance's two highest ones.
unfoldable pub decode_short : ℕ → ℕ → BitReader → Result (ℕ × BitReader)
decode_short base half r =
    if half == 0
    then ok (base, r)
    else (do (extra, r1) ← read_bits half r; ok (bit_or (base * 2 ^ half) extra, r1))

-- The last four of them come from the table of aligned bits; a shift in u32 drops what leaves it.
unfoldable pub decode_aligned : SegmentTables → ℕ → ℕ → BitReader → Result (ℕ × BitReader)
decode_aligned tables base high_bits r = do
  (val, r1) ←
      (if ltb 0 high_bits
        then (do
          (extra, r1) ← read_bits high_bits r
          ok (bit_or (base * 2 ^ high_bits % 2 ^ 32) (extra % 2 ^ 32), r1))
        else ok (base, r))
  (aligned, r2) ← Symbols.read_symbol tables.aligned r1
  ok (bit_or (val * 16 % 2 ^ 32) aligned, r2)

unfoldable pub decode_distance : SegmentTables → ℕ → BitReader → Result (ℕ × BitReader)
decode_distance tables extra_val r =
    let base = extra_val % 2 + 2 in
    let half = extra_val / 2 - 1 in
    if leb extra_val 3
    then ok (extra_val, r)
    else if ltb half 4
    then decode_short base half r
    else decode_aligned tables base (half - 4) r

unfoldable pub decode_far : SegmentTables → ℕ → BitReader → Result (ℕ × BitReader)
decode_far tables adj_slot r = do
  (extra_val, r1) ← decode_extra_value adj_slot r
  if ltb 63 extra_val then err (malformed "offset extra value too large") else (do
    (dist, r2) ← decode_distance tables extra_val r1
    if leb (2 ^ 32) (dist + raw_offset_base)
        then err (malformed "LZX offset overflow")
        else ok (dist + raw_offset_base, r2))

unfoldable pub decode_offset : SegmentTables → ℕ → BitReader → Result (ℕ × BitReader)
decode_offset tables slot r =
    if ltb slot 3
    then (do (adjusted, r1) ← decode_near slot r; ok (as_u32 (adjusted +ℤ pos offset_bias), r1))
    else if ltb slot 7
    then ok (slot + 0x5_3ffd, r)
    else decode_far tables (slot - 7) r

-- The length of a match less one.
unfoldable pub decode_length : SegmentTables → ℕ → BitReader → Result (ℕ × BitReader)
decode_length tables length_slot r =
    if length_slot == 0
    then (do
      (len_sym, r1) ← Symbols.read_symbol tables.lengths r
      if len_sym == 0
          then (do
            (big_len, r2) ← read_u32_number r1
            if ltb big_len 256
                then err (malformed "ReadNumber returned value < 256")
                else if leb (2 ^ 32) (big_len + 7)
                then err (malformed "LZX match length overflow")
                else ok (big_len + 7, r2))
          else ok (len_sym + 7, r1))
    else ok (length_slot, r)

unfoldable pub read_match : SegmentTables → ℕ → BitReader → Result ((ℕ × ℕ) × BitReader)
read_match tables idx r = do
  (offset, r1) ← decode_offset tables (idx / 8) r
  (len, r2) ← decode_length tables (idx % 8) r1
  if leb (2 ^ 32) (len + 1)
      then err (malformed "LZX match length overflow")
      else ok ((offset, len + 1), r2)

-- A literal is its byte with the length 1.
unfoldable pub read_symbol : SegmentTables → BitReader → Result ((ℕ × ℕ) × BitReader)
read_symbol tables r = do
  (raw, r1) ← Symbols.read_symbol tables.main r
  if ltb raw 0x100 then ok ((raw, 1), r1) else read_match tables (raw - 0x100) r1
