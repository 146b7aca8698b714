-- ===== src/Huffman/Table.antt =====
-- src/huffman.rs: `HuffmanTable` and the decode table that `from_lengths` builds. A write behind
-- the end of a vector, a panic in the source, changes nothing.
use msdelta.Base.{
  ℕ, zero, suc, ◌+◌, ◌-◌, ◌*◌, ◌/◌, ◌%◌, ◌^◌, max, bit_and, Bool, ◌||◌, List, [], ◌∷◌, length,
  get_or, set, replicate, ltb, leb, ◌==◌, if◌then◌else◌,
}
use msdelta.Errors.{Result, ok, err, malformed}
use msdelta.Bitstream.Words.{trailing_zeros}
use msdelta.Huffman.Codes.{max_code_len, longest, codes_of}

pub record Slot : Type 0 where
  pub mask : ℕ
  pub offset : ℕ

pub record DecodeEntry : Type 0 where
  pub symbol : ℕ
  pub len : ℕ

pub record HuffmanTable : Type 0 where
  pub slots : List Slot
  pub entries : List DecodeEntry
  pub lengths : List ℕ
  pub codes : List ℕ

abbrev pub no_slot : Slot
no_slot = record { mask = 0; offset = 0 }

abbrev pub no_entry : DecodeEntry
no_entry = record { symbol = 0; len = 0 }

-- The symbols that the decode table finds by the zeros below their code's lowest one.
abbrev pub is_skipped : ℕ → ℕ → Bool
is_skipped len code = len == 0 || code == 0

abbrev pub ctz_of : ℕ → ℕ
ctz_of code = trailing_zeros 32 code

-- A code of `len` bits that is not 0 has fewer zeros than `len` below its lowest one.
abbrev pub extra_of : ℕ → ℕ → ℕ
extra_of len code = len - ctz_of code - 1

-- The most bits behind the lowest one, by the number of zeros below it.
unfoldable pub extras : List ℕ → List ℕ → List ℕ → List ℕ
extras [] codes max_extra = max_extra
extras (len ∷ ls) [] max_extra = max_extra
extras (len ∷ ls) (code ∷ cs) max_extra =
    let extra = extra_of len code in
    extras ls cs (
      if is_skipped len code
      then max_extra
      else if ltb (get_or max_extra (ctz_of code) 0) extra
      then set max_extra (ctz_of code) extra
      else max_extra)

unfoldable pub last_slot : List ℕ → List ℕ → ℕ → ℕ
last_slot [] codes max_slot_used = max_slot_used
last_slot (len ∷ ls) [] max_slot_used = max_slot_used
last_slot (len ∷ ls) (code ∷ cs) max_slot_used =
    last_slot ls cs (if is_skipped len code then max_slot_used else max max_slot_used (ctz_of code))

-- The slots from `i` on, and how many entries there are behind all of them.
unfoldable pub build_slots : ℕ → ℕ → ℕ → List ℕ → ℕ → List Slot × ℕ
build_slots zero i max_slot_used max_extra total_entries = ([], total_entries)
build_slots (suc n) i max_slot_used max_extra total_entries =
    let mask = if leb i max_slot_used then 2 ^ get_or max_extra i 0 - 1 else 0 in
    let next = if leb i max_slot_used then total_entries + mask + 1 else total_entries in
    let (slots, total) = build_slots n (suc i) max_slot_used max_extra next in
    (record { mask = mask; offset = total_entries } ∷ slots, total)

-- `for f in 0..fill`, with `n` rounds left.
unfoldable pub fill_from : ℕ → ℕ → ℕ → ℕ → DecodeEntry → List DecodeEntry → List DecodeEntry
fill_from zero f base stride e entries = entries
fill_from (suc n) f base stride e entries =
    fill_from n (suc f) base stride e (set entries (base + f * stride) e)

-- The entries of the symbol `sym`.
unfoldable pub fill_symbol : List Slot → List ℕ → ℕ → ℕ → ℕ → List DecodeEntry → List DecodeEntry
fill_symbol slots max_extra sym len code entries =
    let ctz = ctz_of code in
    let extra = extra_of len code in
    let shifted = code / 2 ^ (ctz + 1) in
    let slot = get_or slots ctz no_slot in
    let base = bit_and shifted slot.mask + slot.offset in
    fill_from (2 ^ (get_or max_extra ctz 0 - extra)) 0 base (2 ^ extra)
      (record { symbol = sym % 2 ^ 16; len = len }) entries

unfoldable pub fill_symbols :
    List Slot → List ℕ → ℕ → List ℕ → List ℕ → List DecodeEntry → List DecodeEntry
fill_symbols slots max_extra sym [] codes entries = entries
fill_symbols slots max_extra sym (len ∷ ls) [] entries = entries
fill_symbols slots max_extra sym (len ∷ ls) (code ∷ cs) entries =
    fill_symbols slots max_extra (suc sym) ls cs
      (if is_skipped len code then entries else fill_symbol slots max_extra sym len code entries)

-- The first symbol of code 0 stands behind the entries of the others.
unfoldable pub fill_zero : ℕ → ℕ → List ℕ → List ℕ → List DecodeEntry → List DecodeEntry
fill_zero total_entries sym [] codes entries = entries
fill_zero total_entries sym (len ∷ ls) [] entries = entries
fill_zero total_entries sym (len ∷ ls) (code ∷ cs) entries =
    let rest = fill_zero total_entries (suc sym) ls cs entries in
    if ltb 0 len
    then (if code == 0
        then set entries total_entries (record { symbol = sym % 2 ^ 16; len = len })
        else rest)
    else rest

unfoldable pub table_of : List ℕ → List ℕ → HuffmanTable
table_of code_lengths codes =
    let max_extra = extras code_lengths codes (replicate 32 0) in
    let built = build_slots 32 0 (last_slot code_lengths codes 0) max_extra 0 in
    let fresh = replicate (built.1 + 1) no_entry in
    record {
      slots = built.0;
      entries =
          fill_zero built.1 0 code_lengths codes
            (fill_symbols built.0 max_extra 0 code_lengths codes fresh);
      lengths = code_lengths;
      codes = codes;
    }

unfoldable pub from_lengths : List ℕ → Result HuffmanTable
from_lengths [] =
    ok (record { slots = replicate 32 no_slot; entries = []; lengths = []; codes = [] })
from_lengths (l ∷ ls) =
    let code_lengths : List ℕ = l ∷ ls in
    let max_len = longest code_lengths in
    if ltb max_code_len max_len
    then err (malformed "huffman code length exceeds maximum")
    else if max_len == 0
    then ok (record {
      slots = replicate 32 no_slot;
      entries = [];
      lengths = code_lengths;
      codes = replicate (length code_lengths) 0;
    })
    else ok (table_of code_lengths (codes_of code_lengths))
