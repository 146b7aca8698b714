-- ===== src/Lzx/Written.antt =====
-- src/lzx/encode.rs and src/lzx/decode.rs: a file of symbols, written and read again.
use msdelta.Base.{
  ℕ, zero, suc, ◌^◌, ◌<◌, ◌≡◌, inl, inr, refl, sym, ap, List, [], ◌∷◌, All, length, lt→ltb,
}
use msdelta.Errors.{Result, ok, ◌>>=◌, >>=-ok, ok-injective}
use msdelta.Bitstream.Reader.{BitReader}
use msdelta.Bitstream.Reader
use msdelta.Bitstream.Writer
use msdelta.Bitstream.Writer.{BitWriter, finish}
use msdelta.Bitstream.Fields.{encode}
use msdelta.Bitstream.Fields.At.{At, new-At}
use msdelta.Huffman.Codes.{codes_of}
use msdelta.Huffman.Table.{from_lengths}
use msdelta.Huffman.Symbols
use msdelta.Huffman.Prefix.{IsPrefixFree}
use msdelta.Huffman.Coder.{next_symbol, from_lengths-IsCoder}
use msdelta.Lzx.Symbols.{SegmentTables, from_parts, read_symbol}
use msdelta.Lzx.Matches.{write_symbols}
use mathlib.Core.Path.{subst}
use msdelta.Lzx.Reread.{
  AreCoders, IsCounted, match_gives, symbol_fields, symbols-IsValid, symbols_written,
}

unfoldable pub read_symbols : SegmentTables → ℕ → BitReader → Result (List (ℕ × ℕ) × BitReader)
read_symbols tables zero r = ok ([], r)
read_symbols tables (suc n) r = do
  (s, r1) ← read_symbol tables r
  (symbols, r2) ← read_symbols tables n r1
  ok (s ∷ symbols, r2)

literal_read :
    (tables : SegmentTables) (r r1 : BitReader) (raw len : ℕ)
    → len ≡ 1
    → raw < 256
    → Symbols.read_symbol tables.main r ≡ ok (raw, r1)
    → read_symbol tables r ≡ ok ((raw, len), r1)
unfolding read_symbol
literal_read tables r r1 raw len one small e =
    rw e (rw (lt→ltb small) (ap (λ (t : ℕ). ok ((raw, t), r1)) (sym one)))

symbols_read :
    (tables : SegmentTables) (coders : AreCoders tables) (symbols : List (ℕ × ℕ))
    (h : All (IsCounted tables) symbols) {r : BitReader}
    → At r (symbol_fields tables coders symbols h)
    → (r' : BitReader) × (read_symbols tables (length symbols) r ≡ ok (symbols, r'))
unfolding read_symbols symbol_fields
symbols_read tables coders [] h {r} a = (r, refl)
symbols_read tables coders (s ∷ symbols) (inl literal, h) {r} a =
    let (r1, e1, a1) = next_symbol coders.main literal.2 a in
    let (r2, e2) = symbols_read tables coders symbols h a1 in
    (r2, rw (literal_read tables r r1 s.0 s.1 literal.0 literal.1 e1, e2) refl)
symbols_read tables coders (s ∷ symbols) (inr m, h) {r} a =
    let (r1, e1, a1) = match_gives tables coders s.0 s.1 m r _ a in
    let (r2, e2) = symbols_read tables coders symbols h a1 in (r2, rw (e1, e2) refl)

from_parts-AreCoders :
    (ms ls bs : List ℕ) (tables : SegmentTables)
    → from_parts ms ls bs ≡ ok tables
    → IsPrefixFree ms (codes_of ms)
    → IsPrefixFree ls (codes_of ls)
    → IsPrefixFree bs (codes_of bs)
    → AreCoders tables
unfolding from_parts
from_parts-AreCoders ms ls bs tables e fm fl fa =
    let (main, em, e1) = >>=-ok (from_lengths ms) _ e in
    let (lengths, el, e2) = >>=-ok (from_lengths ls) _ e1 in
    let (aligned, ea, e3) = >>=-ok (from_lengths bs) _ e2 in
    subst AreCoders (ok-injective e3) (record {
      main = from_lengths-IsCoder ms main em fm;
      lengths = from_lengths-IsCoder ls lengths el fl;
      aligned = from_lengths-IsCoder bs aligned ea fa;
    })

-- With the tables of a segment, made of code lengths whose codes are prefix-free, the compressor's loop over its symbols
-- succeeds if everything that it counts for them has a code, and the decompressor reads the same
-- symbols again from the file, if that has less than 512 MiB: literals, copies from the mapped
-- place, recent distances, and offsets and lengths of all ranges.
pub read_symbols-write_symbols :
    (ms ls bs : List ℕ) (tables : SegmentTables) (symbols : List (ℕ × ℕ))
    → from_parts ms ls bs ≡ ok tables
    → IsPrefixFree ms (codes_of ms)
    → IsPrefixFree ls (codes_of ls)
    → IsPrefixFree bs (codes_of bs)
    → All (IsCounted tables) symbols
    → ((w : BitWriter)
        → write_symbols tables symbols Writer.new ≡ ok w
        → length (finish w) < 2 ^ 29)
    → (w : BitWriter) × (write_symbols tables symbols Writer.new ≡ ok w)
      × (r : BitReader) × (Reader.new (finish w) ≡ ok r)
      × (r' : BitReader) × (read_symbols tables (length symbols) r ≡ ok (symbols, r'))
unfolding encode
read_symbols-write_symbols ms ls bs tables symbols made fm fl fa h small =
    let coders = from_parts-AreCoders ms ls bs tables made fm fl fa in
    let e = symbols_written tables coders symbols h Writer.new in
    let (r, e1, a) =
      new-At (symbol_fields tables coders symbols h) (symbols-IsValid tables coders symbols h)
        (small _ e) in
    let (r', e2) = symbols_read tables coders symbols h a in (_, e, r, e1, r', e2)
