-- ===== src/Huffman/Sequence.antt =====
-- src/huffman.rs: symbols written one behind another, and read again.
use msdelta.Base.{ℕ, zero, suc, ◌^◌, ◌<◌, ◌≡◌, refl, sym, List, [], ◌∷◌, length, map, All}
use msdelta.Errors.{Result, ok, ◌>>=◌}
use msdelta.Bitstream.Reader.{BitReader, remaining, peek, buffered, ensure_bits, consume_unchecked}
use msdelta.Bitstream.Reader
use msdelta.Bitstream.Writer
use msdelta.Bitstream.Writer.{BitWriter, finish}
use msdelta.Bitstream.Fields.{IsValid, write_field, write_fields, encode}
use msdelta.Bitstream.Fields.At.{At, new-At}
use msdelta.Huffman.Codes.{codes_of}
use msdelta.Huffman.Table.{HuffmanTable, from_lengths}
use msdelta.Huffman.Symbols.{read_symbol, write_symbol}
use msdelta.Huffman.Prefix.{IsPrefixFree}
use msdelta.Huffman.Reading.{HasCode}
use msdelta.Huffman.Coder.{
  IsCoder, symbol_field, symbol_field-IsValid, next_symbol, from_lengths-lengths,
  from_lengths-IsCoder,
}
use mathlib.Core.Path.{subst}

unfoldable pub write_symbols : HuffmanTable → List ℕ → BitWriter → BitWriter
write_symbols t [] writer = writer
write_symbols t (sym ∷ syms) writer = write_symbols t syms (write_symbol t writer sym)

unfoldable pub read_symbols : HuffmanTable → ℕ → BitReader → Result (List ℕ × BitReader)
read_symbols t zero reader = ok ([], reader)
read_symbols t (suc n) reader = do
  (sym, r1) ← read_symbol t reader
  (syms, r2) ← read_symbols t n r1
  ok (sym ∷ syms, r2)

write_symbols-write_fields :
    (t : HuffmanTable) (syms : List ℕ) (w : BitWriter)
    → write_symbols t syms w ≡ write_fields (map (symbol_field t) syms) w
unfolding write_symbols write_symbol write_fields write_field
write_symbols-write_fields t [] w = refl
write_symbols-write_fields t (s ∷ syms) w = write_symbols-write_fields t syms _

symbols-IsValid :
    (t : HuffmanTable) (coder : IsCoder t) (syms : List ℕ)
    → All (HasCode t.lengths) syms
    → All IsValid (map (symbol_field t) syms)
symbols-IsValid t coder [] h = tt
symbols-IsValid t coder (s ∷ syms) h =
    (symbol_field-IsValid coder h.0, symbols-IsValid t coder syms h.1)

read_symbols-At :
    (t : HuffmanTable) (coder : IsCoder t) (syms : List ℕ) {r : BitReader}
    → All (HasCode t.lengths) syms
    → At r (map (symbol_field t) syms)
    → (r' : BitReader) × (read_symbols t (length syms) r ≡ ok (syms, r'))
unfolding read_symbols
read_symbols-At t coder [] {r} h a = (r, refl)
read_symbols-At t coder (s ∷ syms) h a =
    let (r1, e, a1) = next_symbol coder h.0 a in
    let (r2, e') = read_symbols-At t coder syms h.1 a1 in (r2, rw (e, e') refl)

-- The file that a writer makes of symbols, and the symbols of a file.
unfoldable pub encode_symbols : HuffmanTable → List ℕ → List ℕ
encode_symbols t syms = finish (write_symbols t syms Writer.new)

unfoldable pub decode_symbols : HuffmanTable → ℕ → List ℕ → Result (List ℕ × BitReader)
decode_symbols t n bytes = do r ← Reader.new bytes; read_symbols t n r

-- With a table that `from_lengths` makes of code lengths whose codes are prefix-free, symbols that
-- have codes and are written into a file of less than 512 MiB are read back from it, one behind another: the table lookup
-- by the zeros below the lowest one finds each symbol.
pub decode_symbols-encode_symbols :
    (ls syms : List ℕ) (t : HuffmanTable)
    → from_lengths ls ≡ ok t
    → IsPrefixFree ls (codes_of ls)
    → All (HasCode ls) syms
    → length (encode_symbols t syms) < 2 ^ 29
    → (r : BitReader) × (decode_symbols t (length syms) (encode_symbols t syms) ≡ ok (syms, r))
unfolding encode_symbols decode_symbols encode
decode_symbols-encode_symbols ls syms t made free has small =
    let coder : IsCoder t = from_lengths-IsCoder ls t made free in
    let has' : All (HasCode t.lengths) syms =
      subst (λ l. All (HasCode l) syms) (sym (from_lengths-lengths ls t made)) has in
    let as_fields = write_symbols-write_fields t syms Writer.new in
    let (r, e, a) =
      new-At (map (symbol_field t) syms) (symbols-IsValid t coder syms has')
        (rw as_fields at small) in
    let (r', e') = read_symbols-At t coder syms has' a in (r', rw (as_fields, e, e') refl)
