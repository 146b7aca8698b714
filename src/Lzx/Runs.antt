-- ===== src/Lzx/Runs.antt =====
-- src/lzx/encode.rs: the code lengths of a segment as the compressor writes them. A length is a
-- u8, so that no difference of two leaves an i16.
use msdelta.Base.{
  ℕ, zero, suc, ◌+◌, ◌-◌, min, Bool, ◌&&◌, List, [], ◌∷◌, length, get_or, Option, none, some, ltb,
  leb, ◌==◌, if◌then◌else◌,
}
use msdelta.Bitstream.Writer.{BitWriter, write_bits}
use msdelta.Huffman.Table.{HuffmanTable}
use msdelta.Huffman.Symbols

-- A symbol of the pretree, and the bits behind it: their value and their count.
abbrev pub Item : Type 0
Item = ℕ × Option (ℕ × ℕ)

-- A run has at least one length.
unfoldable pub encode_run_count : ℕ → Item
encode_run_count count =
    if count == 1
    then (0, none)
    else if count == 2
    then (1, none)
    else if count == 3
    then (2, none)
    else if leb 4 count && leb count 7
    then (3, some (count - 4, 2))
    else if leb 8 count && leb count 15
    then (4, some (count - 8, 3))
    else if leb 16 count && leb count 31
    then (5, some (count - 16, 4))
    else if leb 32 count && leb count 63
    then (6, some (count - 32, 5))
    else (7, some (min (count - 64) 63, 6))

-- The loop that lengthens a run; it takes 127 rounds at most.
unfoldable pub lengthen : ℕ → (ℕ → Bool) → ℕ → ℕ → ℕ → ℕ
lengthen zero test i run_end_cap run = run
lengthen (suc n) test i run_end_cap run =
    let more = lengthen n test i run_end_cap (suc run) in
    if ltb (i + run) run_end_cap && test (i + run) && ltb run 127 then more else run

-- How many lengths from `i` on are the ones before the change.
unfoldable pub kept_run : List ℕ → List ℕ → ℕ → ℕ
kept_run lengths prev i =
    lengthen 127 (λ j. get_or lengths j 0 == get_or prev j 0) i (length lengths - 1) 0

-- How many are the length before `i`.
unfoldable pub same_run : List ℕ → ℕ → ℕ
same_run lengths i =
    lengthen 127 (λ j. get_or lengths j 0 == get_or lengths (i - 1) 0) i (length lengths - 1) 0

unfoldable pub single : ℕ → ℕ → ℕ
single l p =
    if l == p + 1
    then 17
    else if l == p + 2
    then 18
    else if l == p + 3
    then 19
    else if p == l + 1
    then 20
    else if p == l + 2
    then 21
    else if p == l + 3
    then 22
    else l

-- What is written at `i`, and for how many lengths it stands.
unfoldable pub item_at : List ℕ → List ℕ → ℕ → Item × ℕ
item_at lengths prev i =
    let kept = kept_run lengths prev i in
    let same = same_run lengths i in
    if ltb (i + 3) (length lengths) && leb 4 kept
    then (((encode_run_count kept).0 + 8 + 23, (encode_run_count kept).1), kept)
    else if ltb 0 i && leb 4 same
    then (((encode_run_count same).0 + 23, (encode_run_count same).1), same)
    else ((single (get_or lengths i 0) (get_or prev i 0), none), 1)

-- Each round takes a length at least.
unfoldable pub items_from : ℕ → List ℕ → List ℕ → ℕ → List Item
items_from zero lengths prev i = []
items_from (suc fuel) lengths prev i =
    let rest = items_from fuel lengths prev (i + (item_at lengths prev i).1) in
    if ltb i (length lengths) then (item_at lengths prev i).0 ∷ rest else []

unfoldable pub encode_compression_lengths : List ℕ → List ℕ → List Item
encode_compression_lengths lengths prev = items_from (length lengths) lengths prev 0

unfoldable pub write_extra : Option (ℕ × ℕ) → BitWriter → BitWriter
write_extra none writer = writer
write_extra (some (val, bits)) writer = write_bits val bits writer

unfoldable pub write_items : HuffmanTable → List Item → BitWriter → BitWriter
write_items pretree [] writer = writer
write_items pretree (item ∷ items) writer =
    write_items pretree items (write_extra item.1 (Symbols.write_symbol pretree writer item.0))
