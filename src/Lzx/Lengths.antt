-- ===== src/Lzx/Lengths.antt =====
-- src/lzx/decode.rs: the lengths of the codes of a segment, and the segments of a patch.
use msdelta.Base.{
  ℕ, zero, suc, ◌+◌, ◌-◌, ◌^◌, ◌%◌, ◌||◌, bit_and, bit_or, List, [], ◌∷◌, ◌++◌, length, get_or,
  take, drop, replicate, ltb, leb, ◌==◌, if◌then◌else◌,
}
use msdelta.Base.Int.{ℤ, pos, negsuc, ◌+ℤ◌, as_u64, ltb_ℤ}
use msdelta.Errors.{Result, ok, err, malformed, ◌>>=◌}
use msdelta.Bitstream.Reader.{BitReader, read_bits, read_i64}
use msdelta.Huffman.Table.{HuffmanTable, from_lengths}
use msdelta.Huffman.Symbols
use msdelta.Lzx.Symbols.{SegmentTables, from_all_lengths, total_lengths}

abbrev pub pretree_symbols : ℕ
pretree_symbols = 39

-- A length changed by 1 to 3 up or down, as a byte.
unfoldable pub shifted_length : ℕ → ℕ → ℕ
shifted_length delta prev =
    if ltb delta 3 then (prev + delta + 1) % 2 ^ 8 else (prev + 2 ^ 8 - (delta - 2)) % 2 ^ 8

unfoldable pub read_run_count : ℕ → BitReader → Result (ℕ × BitReader)
read_run_count run_slot r =
    if ltb run_slot 3
    then ok (run_slot + 1, r)
    else (do (extra, r1) ← read_bits (run_slot - 1) r; ok (bit_or (2 ^ (run_slot - 1)) extra, r1))

-- The lengths of a run behind `result`: its last length again, or the ones before the change.
unfoldable pub run_of : ℕ → ℕ → List ℕ → List ℕ → Result (List ℕ)
run_of run_sym run_count prev result =
    let i = length result in
    if ltb total_lengths (i + run_count)
    then err (malformed "run-length exceeds total lengths")
    else if leb 8 run_sym
    then ok (take run_count (drop i prev))
    else if i == 0
    then err (malformed "run-length at start of lengths")
    else ok (replicate run_count (get_or result (i - 1) 0))

-- One round: the lengths that a symbol stands for. `result` holds the lengths so far.
unfoldable pub next_lengths :
    HuffmanTable → List ℕ → List ℕ → BitReader → Result (List ℕ × BitReader)
next_lengths pretree prev result r = do
  (sym, r1) ← Symbols.read_symbol pretree r
  if leb sym 16
      then ok (sym ∷ [], r1)
      else if ltb sym 23
      then ok (shifted_length (sym - 17) (get_or prev (length result) 0) ∷ [], r1)
      else (do
        (run_count, r2) ← read_run_count (bit_and (sym - 23) 7) r1
        run ← run_of (sym - 23) run_count prev result
        ok (run, r2))

-- Each round adds a length at least, so as many rounds as there are lengths are enough.
unfoldable pub lengths_loop :
    ℕ → HuffmanTable → List ℕ → List ℕ → BitReader → Result (List ℕ × BitReader)
lengths_loop zero pretree prev result r = ok (result, r)
lengths_loop (suc fuel) pretree prev result r =
    let rest = (do
      (new, r1) ← next_lengths pretree prev result r
      lengths_loop fuel pretree prev (result ++ new) r1) in
    if ltb (length result) total_lengths then rest else ok (result, r)

unfoldable pub checked_lengths : List ℕ → Result (List ℕ)
checked_lengths [] = ok []
checked_lengths (l ∷ ls) =
    let rest = (do ls' ← checked_lengths ls; ok (l ∷ ls')) in
    if ltb 16 l then err (malformed "code length exceeds maximum") else rest

unfoldable pub read_compression_lengths :
    BitReader → HuffmanTable → List ℕ → Result (List ℕ × BitReader)
read_compression_lengths r pretree prev = do
  (result, r1) ← lengths_loop total_lengths pretree prev [] r
  checked ← checked_lengths result
  ok (checked, r1)

pub record CompositeFormat : Type 0 where
  pub segments : List SegmentTables
  pub boundaries : List ℕ

-- `checked_add` of two i64.
unfoldable pub checked_add : ℤ → ℤ → Result ℤ
checked_add a b =
    let sum = a +ℤ b in
    if ltb_ℤ sum (negsuc (2 ^ 63 - 1)) || ltb_ℤ (pos (2 ^ 63 - 1)) sum
    then err (malformed "segment boundary overflow")
    else ok sum

unfoldable pub read_boundaries : ℕ → ℤ → BitReader → Result (List ℕ × BitReader)
read_boundaries zero acc r = ok ([], r)
read_boundaries (suc n) acc r = do
  (delta, r1) ← read_i64 r
  next ← checked_add acc delta
  (rest, r2) ← read_boundaries n next r1
  ok (as_u64 next ∷ rest, r2)

unfoldable pub read_pretree_lengths : ℕ → BitReader → Result (List ℕ × BitReader)
read_pretree_lengths zero r = ok ([], r)
read_pretree_lengths (suc n) r = do
  (l, r1) ← read_bits 4 r
  (rest, r2) ← read_pretree_lengths n r1
  ok (l ∷ rest, r2)

-- Each segment's lengths stand as changes of the ones before.
unfoldable pub read_segments :
    ℕ → HuffmanTable → List ℕ → BitReader → Result (List SegmentTables × BitReader)
read_segments zero pretree prev r = ok ([], r)
read_segments (suc n) pretree prev r = do
  (lengths, r1) ← read_compression_lengths r pretree prev
  tables ← from_all_lengths lengths
  (rest, r2) ← read_segments n pretree lengths r1
  ok (tables ∷ rest, r2)

unfoldable pub read_composite_format : BitReader → Result (CompositeFormat × BitReader)
read_composite_format r = do
  (count, r1) ← read_i64 r
  let num_segments = as_u64 count
  if num_segments == 0 || ltb 1024 num_segments
      then err (malformed "invalid segment count")
      else (do
        (boundaries, r2) ← read_boundaries num_segments (pos 0) r1
        (pretree_lengths, r3) ← read_pretree_lengths pretree_symbols r2
        pretree ← from_lengths pretree_lengths
        (segments, r4) ← read_segments num_segments pretree (replicate total_lengths 0) r3
        ok (record { segments = segments; boundaries = boundaries }, r4))
