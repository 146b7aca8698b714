-- ===== src/Lzx/Rift/Coder.antt =====
-- src/lzx/rift.rs: `IntFormat`, its code lengths in the bit stream and the numbers coded with it.
use msdelta.Base.{
  ℕ, zero, suc, ◌+◌, ◌-◌, ◌%◌, ◌^◌, max, List, [], ◌∷◌, ◌++◌, length, take, replicate, ltb, leb,
  ◌==◌, if◌then◌else◌,
}
use msdelta.Base.Int.{ℤ}
use msdelta.Errors.{Result, ok, err, malformed, ◌>>=◌}
use msdelta.Bitstream.Reader.{BitReader, read_bits}
use msdelta.Bitstream.Writer.{BitWriter, write_bits}
use msdelta.Huffman.Table.{HuffmanTable, from_lengths}
use msdelta.Huffman.Symbols.{read_symbol, write_symbol}
use msdelta.Lzx.Rift.Numbers.{
  int_format_half, value_to_symbol, magnitude_index, extra_bits, number_of, Coded,
}

abbrev pub int_format_symbols : ℕ
int_format_symbols = 252

pub record IntFormat : Type 0 where
  pub table : HuffmanTable
  pub num_pos : ℕ
  pub num_neg : ℕ

unfoldable pub init_default : Result IntFormat
init_default = do
  table ← from_lengths (replicate 4 7 ++ replicate (int_format_symbols - 4) 8)
  ok (record { table = table; num_pos = 0; num_neg = 0 })

-- `n` lengths, each in 4 bits and less one.
unfoldable pub read_explicit : ℕ → BitReader → Result (List ℕ × BitReader)
read_explicit zero r = ok ([], r)
read_explicit (suc n) r = do
  (l, r1) ← read_bits 4 r
  (rest, r2) ← read_explicit n r1
  ok ((l + 1) ∷ rest, r2)

-- The default length for the `n` symbols from `i` on; where `remaining` is used up, the length
-- falls by 1 and `bound - i` symbols have it.
unfoldable pub fill_default : ℕ → ℕ → ℕ → ℕ → ℕ → List ℕ
fill_default zero i bound len remaining = []
fill_default (suc n) i bound len remaining =
    let len' = if remaining == 0 then len - 1 else len in
    let remaining' = if remaining == 0 then bound - i else remaining in
    len' ∷ fill_default n (suc i) bound len' (remaining' - 1)

unfoldable pub lengths_of : ℕ → List ℕ → List ℕ → ℕ → List ℕ
lengths_of num_default positive negative default_len =
    let num_pos = length positive in
    let num_neg = length negative in
    let more_pos =
      fill_default (int_format_half - num_pos) num_pos (int_format_symbols - num_pos - num_neg)
        default_len num_default in
    let more_neg =
      fill_default (int_format_half - num_neg) num_neg int_format_half default_len
        (num_default - (int_format_half - num_pos)) in
    (positive ++ more_pos) ++ (negative ++ more_neg)

unfoldable pub read_lengths : ℕ → ℕ → ℕ → BitReader → Result (IntFormat × BitReader)
read_lengths num_pos num_neg num_default r = do
  (positive, r1) ← read_explicit num_pos r
  (negative, r2) ← read_explicit num_neg r1
  (default, r3) ← read_bits 4 r2
  if ltb 16 (default + 1) then err (malformed "IntFormat code length > 16") else (do
    table ← from_lengths (lengths_of num_default positive negative (default + 1))
    ok (record { table = table; num_pos = num_pos; num_neg = num_neg }, r3))

unfoldable pub from_reader : BitReader → Result (IntFormat × BitReader)
from_reader r = do
  (num_pos, r1) ← read_bits 8 r
  (num_neg, r2) ← read_bits 8 r1
  (num_default, r3) ← read_bits 8 r2
  if ltb int_format_half (max num_pos num_neg)
      then err (malformed "IntFormat mode out of range")
      else if ltb (int_format_symbols - num_pos - num_neg) num_default
      then err (malformed "IntFormat default count overflow")
      else read_lengths num_pos num_neg num_default r3

-- No bits stand behind a symbol of a magnitude up to 3.
unfoldable pub read_extra : ℕ → BitReader → Result (ℕ × BitReader)
read_extra idx r = if leb idx 3 then ok (0, r) else read_bits (extra_bits idx) r

unfoldable pub read_number : IntFormat → BitReader → Result (ℤ × BitReader)
read_number format r = do
  (sym, r1) ← read_symbol format.table r
  (extra, r2) ← read_extra (magnitude_index sym).0 r1
  ok (number_of sym extra, r2)

-- The lengths of all symbols, each in 4 bits and less one.
unfoldable pub write_lengths : List ℕ → BitWriter → BitWriter
write_lengths [] w = w
write_lengths (l ∷ ls) w = write_lengths ls (write_bits (max l 1 - 1) 4 w)

unfoldable pub to_writer : IntFormat → BitWriter → BitWriter
to_writer format w =
    let w1 = write_bits int_format_half 8 w in
    let w2 = write_bits int_format_half 8 w1 in
    let w3 = write_bits 0 8 w2 in
    write_bits 0 4 (write_lengths (take int_format_symbols format.table.lengths) w3)

unfoldable pub write_coded : HuffmanTable → Coded → BitWriter → BitWriter
write_coded table c w =
    let w1 = write_symbol table w (c.symbol % 2 ^ 16) in
    if ltb 0 c.bits then write_bits c.extra c.bits w1 else w1

unfoldable pub write_number : IntFormat → ℤ → BitWriter → BitWriter
write_number format value w = write_coded format.table (value_to_symbol value) w
