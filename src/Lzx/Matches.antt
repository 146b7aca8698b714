-- ===== src/Lzx/Matches.antt =====
-- src/lzx/encode.rs: a match as the compressor writes it, and the symbols that it counts before. No
-- shift of a u32 here loses a bit, and a match has a length of 2 at least.
use msdelta.Base.{
  ℕ, zero, suc, ◌+◌, ◌-◌, ◌*◌, ◌/◌, ◌%◌, ◌^◌, max, bit_and, bit_or, Bool, true, false, not, ◌&&◌,
  List, [], ◌∷◌, length, Option, none, some, ltb, leb, ◌==◌, if◌then◌else◌,
}
use msdelta.Base.Int.{ℤ, pos, ◌+ℤ◌, ◌-ℤ◌, as_u32, ltb_ℤ}
use msdelta.Errors.{Result, ok, err, malformed, ◌>>=◌}
use msdelta.Bitstream.Writer.{BitWriter, write_bits, write_u32_number}
use msdelta.Huffman.Table.{HuffmanTable}
use msdelta.Huffman.Symbols
use msdelta.Lzx.Ops.{source_copy_raw, lru_base_raw, raw_offset_base, offset_bias}
use msdelta.Lzx.Symbols.{SegmentTables}

-- The distances that a slot stands for: two bits in front, and `half` bits behind them.
abbrev pub base_of : ℕ → ℕ
base_of try_adj = try_adj % 2 + 2

abbrev pub half_of : ℕ → ℕ
half_of try_adj = try_adj / 2 - 1

abbrev pub base_val : ℕ → ℕ → ℕ
base_val base high_bits = if ltb 0 high_bits then base * 2 ^ high_bits else base

abbrev pub max_high : ℕ → ℕ
max_high high_bits = if ltb 0 high_bits then 2 ^ high_bits - 1 else 0

unfoldable pub fits_short : ℕ → ℕ → ℕ → Bool
fits_short base half dist =
    let shifted = base * 2 ^ half in leb shifted dist && ltb dist (shifted + 2 ^ half)

unfoldable pub fits_aligned : ℕ → ℕ → ℕ → Bool
fits_aligned base high_bits dist =
    let lowest = base_val base high_bits * 16 in
    let highest = bit_or (bit_or (base_val base high_bits) (max_high high_bits) * 16) 15 in
    leb lowest dist && leb dist highest

unfoldable pub fits_slot : ℕ → ℕ → Bool
fits_slot try_adj dist =
    let base = base_of try_adj in
    let half = half_of try_adj in
    if ltb half 4 then fits_short base half dist else fits_aligned base (half - 4) dist

-- Stands for the bits that come from the table of aligned bits.
abbrev pub sentinel : ℕ × ℕ
sentinel = (2 ^ 64 - 1, 0)

-- The bits behind the two in front: their value and their count.
unfoldable pub slot_extra : ℕ → ℕ → List (ℕ × ℕ)
slot_extra try_adj dist =
    let base = base_of try_adj in
    let half = half_of try_adj in
    if ltb half 4
    then (if ltb 0 half then (dist - base * 2 ^ half, half) ∷ [] else [])
    else if ltb 0 (half - 4)
    then (bit_and (dist / 16) (max_high (half - 4)), half - 4) ∷ sentinel ∷ []
    else sentinel ∷ []

-- `for try_adj in 4..64`, with `n` rounds left.
unfoldable pub search_slot : ℕ → ℕ → ℕ → Option ℕ
search_slot zero try_adj dist = none
search_slot (suc n) try_adj dist =
    let rest = search_slot n (suc try_adj) dist in
    if fits_slot try_adj dist then some try_adj else rest

unfoldable pub found_slot : ℕ → Option ℕ → Result (ℕ × List (ℕ × ℕ))
found_slot dist none = err (malformed "could not encode distance")
found_slot dist (some adj) = ok (adj + 7, slot_extra adj dist)

unfoldable pub far_slot : ℕ → Result (ℕ × List (ℕ × ℕ))
far_slot dist =
    if dist == 0
    then err (malformed "zero distance not supported")
    else if leb dist 3
    then ok (dist + 7, [])
    else found_slot dist (search_slot 60 4 dist)

abbrev pub is_within : ℕ → ℤ → Bool
is_within reach signed_dist =
    not (ltb_ℤ signed_dist (pos 0 -ℤ pos reach)) && ltb_ℤ signed_dist (pos reach)

abbrev pub signed_slot : ℤ → ℕ
signed_slot signed_dist =
    if is_within 0x2000 signed_dist then 0 else if is_within 0xa000 signed_dist then 1 else 2

unfoldable pub near_extra : ℤ → ℕ × ℕ
near_extra signed_dist =
    if signed_slot signed_dist == 0
    then (as_u32 (signed_dist +ℤ pos 0x2000), 14)
    else if signed_slot signed_dist == 1
    then (
      as_u32
          (signed_dist +ℤ pos (if ltb_ℤ signed_dist (pos 0 -ℤ pos 0x2000) then 0xa000 else 0x6000)),
      16,
    )
    else (
      bit_and
          (as_u32
            (signed_dist +ℤ pos (if ltb_ℤ signed_dist (pos 0x6000) then 0x2_a000 else 0x1_6000)))
          0x3_ffff,
      18,
    )

-- The offset's slot, and the bits behind the main symbol.
unfoldable pub offset_parts : ℕ → Result (ℕ × List (ℕ × ℕ))
offset_parts raw_offset =
    let signed_dist = pos raw_offset -ℤ pos offset_bias in
    if raw_offset == source_copy_raw
    then ok (3, [])
    else if leb lru_base_raw raw_offset && ltb raw_offset (lru_base_raw + 3)
    then ok (raw_offset - 0x5_3ffd, [])
    else if leb raw_offset_base raw_offset
    then far_slot (raw_offset - raw_offset_base)
    else ok (signed_slot signed_dist, near_extra signed_dist ∷ [])

unfoldable pub compute_length_slot : ℕ → ℕ
compute_length_slot length = if ltb 1 length && leb (length - 1) 7 then length - 1 else 0

unfoldable pub compute_length_extra : ℕ → ℕ
compute_length_extra length =
    let len_sym = length - 1 - 7 in if ltb 0 len_sym && leb len_sym 255 then len_sym else 0

abbrev pub main_symbol : ℕ → ℕ → ℕ
main_symbol offset_slot length_slot = bit_or (0x100 + offset_slot * 8) length_slot % 2 ^ 16

abbrev pub aligned_of : ℕ → ℕ
aligned_of raw_offset = bit_and (raw_offset - raw_offset_base) 0xf

unfoldable pub write_extras : HuffmanTable → ℕ → List (ℕ × ℕ) → BitWriter → BitWriter
write_extras aligned raw_offset [] writer = writer
write_extras aligned raw_offset ((val, bits) ∷ extras) writer =
    write_extras aligned raw_offset extras (
      if val == 2 ^ 64 - 1
      then Symbols.write_symbol aligned writer (aligned_of raw_offset)
      else if ltb 0 bits
      then write_bits val bits writer
      else writer)

-- The lengths that have no slot of their own: the table's symbol 0 stands for a number behind it.
unfoldable pub write_length : HuffmanTable → ℕ → BitWriter → BitWriter
write_length lengths length writer =
    let len_sym = compute_length_extra length in
    let w = Symbols.write_symbol lengths writer len_sym in
    if ltb 1 length && leb (length - 1) 7
    then writer
    else if len_sym == 0
    then write_u32_number (max (length - 1 - 7) 256) w
    else w

unfoldable pub encode_match : SegmentTables → BitWriter → ℕ → ℕ → Result BitWriter
encode_match tables writer raw_offset len = do
  (offset_slot, extras) ← offset_parts raw_offset
  let main_sym = main_symbol offset_slot (compute_length_slot len)
  if leb (length tables.main.lengths) main_sym
      then err (malformed "main symbol out of range")
      else ok (
          write_length tables.lengths len (
            write_extras tables.aligned raw_offset extras
              (Symbols.write_symbol tables.main writer main_sym)))

-- A literal or a match.
unfoldable pub write_one : SegmentTables → ℕ × ℕ → BitWriter → Result BitWriter
write_one tables (raw_offset, length) writer =
    if length == 1 && ltb raw_offset 256
    then ok (Symbols.write_symbol tables.main writer raw_offset)
    else encode_match tables writer raw_offset length

unfoldable pub write_symbols : SegmentTables → List (ℕ × ℕ) → BitWriter → Result BitWriter
write_symbols tables [] writer = ok writer
write_symbols tables (s ∷ symbols) writer = do
  w ← write_one tables s writer
  write_symbols tables symbols w

unfoldable pub info_of : Option ℕ → ℕ × ℕ × Bool
info_of none = (7, 0, false)
info_of (some adj) =
    if ltb (half_of adj) 4 then (adj + 7, half_of adj, false) else (adj + 7, half_of adj - 4, true)

-- What is counted for an offset: its slot, its extra bits, and whether it needs an aligned symbol.
unfoldable pub compute_symbol_info : ℕ → ℕ × ℕ × Bool
compute_symbol_info raw_offset =
    let dist = raw_offset - raw_offset_base in
    if raw_offset == source_copy_raw
    then (3, 0, false)
    else if leb lru_base_raw raw_offset && ltb raw_offset (lru_base_raw + 3)
    then (raw_offset - 0x5_3ffd, 0, false)
    else if leb raw_offset_base raw_offset
    then (if leb dist 3 then (dist + 7, 0, false) else info_of (search_slot 60 4 dist))
    else (signed_slot (pos raw_offset -ℤ pos offset_bias), 0, false)
