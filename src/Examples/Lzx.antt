-- ===== src/Examples/Lzx.antt =====
-- The PseudoLzx decompressor at concrete inputs.
use msdelta.Base.{
  ◌++◌, ◌≤◌, min, get_or, replicate, ℕ, ◌+◌, ◌<◌, ◌≡◌, refl, arith, true, Option, none, some, List,
  [], ◌∷◌, length,
}
use msdelta.Base.Int.{ℤ, pos, negsuc}
use msdelta.Errors.{ok, err, malformed}
use msdelta.Lzx.Copy.{Written, copy_one, src_start_of}
use msdelta.Lzx.Copied.{Copies, copy_one-Copies, copy_one-refused}
use msdelta.Lzx.Traced.{Traces}
use msdelta.Lzx.Decoder.{decompress_with_copy_source}
use msdelta.Bitstream.Reader.{BitReader, ensure_bits, remaining, consume_unchecked, refill}
use msdelta.Huffman.Codes.{codes_of}
use msdelta.Huffman.Table.{HuffmanTable, table_of, from_lengths}
use msdelta.Huffman.Symbols.{read_symbol}
use msdelta.Lzx.Queue
use msdelta.Lzx.Rift.Offsets.{from_rift_table}
use msdelta.Lzx.Symbols.{SegmentTables, from_all_lengths}
use msdelta.Lzx.Lengths.{read_compression_lengths}
use msdelta.Lzx.Accepted.{AreShort, read_compression_lengths-ok}
use msdelta.Lzx.Decoder.{Input, State, rounds}
use msdelta.Lzx.Decoded.{IsGood, rounds-IsGood}
use msdelta.Lzx.Target.{decompress_with_copy_source-Traces}

-- Three bytes, behind a reference of three.
abbrev three : Written
three = record { output = 1 ∷ 2 ∷ 3 ∷ []; copy_src = none }

-- A copy that starts in the reference and overlaps what it makes.
copy_one-Copies_example :
    Copies (7 ∷ 8 ∷ 9 ∷ []) 2 9 three (copy_one (7 ∷ 8 ∷ 9 ∷ []) 3 6 (pos 4) 9 three)
unfolding src_start_of msdelta.Base.Int.as_u64 msdelta.Base.Int.◌-ℤ◌
copy_one-Copies_example =
    copy_one-Copies (7 ∷ 8 ∷ 9 ∷ []) 6 (pos 4) 9 three (omega arith) (omega arith)

copy_one-refused_example :
    copy_one (7 ∷ 8 ∷ 9 ∷ []) 3 6 (negsuc 0) 2 three
    ≡ err (malformed "back-reference out of output bounds")
unfolding src_start_of msdelta.Base.Int.as_u64 msdelta.Base.Int.◌-ℤ◌
copy_one-refused_example =
    copy_one-refused (7 ∷ 8 ∷ 9 ∷ []) 6 (negsuc 0) 2 three (omega arith) (omega arith)

-- A literal and a source copy that begins in the reference and ends in the output.
abbrev patch : List ℕ
patch = 81 ∷ 102 ∷ 39 ∷ []

patch_runs :
    decompress_with_copy_source (7 ∷ 8 ∷ 9 ∷ []) patch 4 none
    ≡ ok (65 ∷ 8 ∷ 9 ∷ 65 ∷ [], negsuc 0 ∷ pos 1 ∷ pos 2 ∷ negsuc 0 ∷ [])
unfolding msdelta.Lzx.Decoder.tables_at msdelta.Lzx.Decoder.pass_segments
    msdelta.Lzx.Decoder.distance_of msdelta.Lzx.Decoder.push_literal msdelta.Lzx.Decoder.chunk_of
    msdelta.Lzx.Decoder.walk msdelta.Lzx.Decoder.copy_match msdelta.Lzx.Decoder.apply_symbol
    msdelta.Lzx.Decoder.round msdelta.Lzx.Decoder.rounds msdelta.Lzx.Decoder.read_format
    msdelta.Lzx.Decoder.merged msdelta.Lzx.Decoder.finished msdelta.Lzx.Decoder.run
    msdelta.Lzx.Decoder.decompress_into msdelta.Lzx.Decoder.decompress_with_copy_source
    msdelta.Lzx.Copy.span msdelta.Lzx.Copy.extend_reference msdelta.Lzx.Copy.extend_within
    msdelta.Lzx.Copy.push_from msdelta.Lzx.Copy.push_run msdelta.Lzx.Copy.push_checked
    msdelta.Lzx.Copy.copy_reference msdelta.Lzx.Copy.copy_output msdelta.Lzx.Copy.copy_both
    msdelta.Lzx.Copy.src_start_of msdelta.Lzx.Copy.copy_from msdelta.Lzx.Copy.copy_one
    msdelta.Lzx.Symbols.from_parts msdelta.Lzx.Symbols.from_flat msdelta.Lzx.Symbols.decode_offset
    msdelta.Lzx.Symbols.decode_length msdelta.Lzx.Symbols.read_match msdelta.Lzx.Symbols.read_symbol
    msdelta.Lzx.Format.ilog2 msdelta.Lzx.Format.flat_code_lengths msdelta.Lzx.Queue.new
    msdelta.Lzx.Queue.update msdelta.Lzx.Rift.Offsets.offset_entries
    msdelta.Lzx.Rift.Offsets.from_rift_table msdelta.Lzx.Rift.Offsets.offset_found
    msdelta.Lzx.Rift.Offsets.offset_at msdelta.Lzx.Rift.Offsets.segment_place
    msdelta.Base.Search.halve msdelta.Base.Search.binary_search msdelta.Lzx.Rift.Offsets.segment_at
    msdelta.Lzx.Rift.Serial.from_reader msdelta.Lzx.Rift.Sum.insert_entry
    msdelta.Lzx.Rift.Sum.sort_entries msdelta.Lzx.Rift.rift_entry_offset msdelta.Lzx.Rift.last_entry
    msdelta.Huffman.Codes.longest msdelta.Huffman.Codes.count_lengths
    msdelta.Huffman.Codes.base_codes msdelta.Huffman.Codes.reverse_bits
    msdelta.Huffman.Codes.assign_codes msdelta.Huffman.Codes.codes_of msdelta.Huffman.Table.extras
    msdelta.Huffman.Table.last_slot msdelta.Huffman.Table.build_slots
    msdelta.Huffman.Table.fill_from msdelta.Huffman.Table.fill_symbol
    msdelta.Huffman.Table.fill_symbols msdelta.Huffman.Table.fill_zero
    msdelta.Huffman.Table.table_of msdelta.Huffman.Table.from_lengths
    msdelta.Huffman.Symbols.entry_index msdelta.Huffman.Symbols.take_entry
    msdelta.Huffman.Symbols.read_symbol msdelta.Bitstream.Reader.remaining
    msdelta.Bitstream.Reader.buffered msdelta.Bitstream.Reader.refill_word
    msdelta.Bitstream.Reader.refill_bytes msdelta.Bitstream.Reader.clear_stale
    msdelta.Bitstream.Reader.refill_cleared msdelta.Bitstream.Reader.refill
    msdelta.Bitstream.Reader.peek msdelta.Bitstream.Reader.consume_unchecked
    msdelta.Bitstream.Reader.ensure_bits msdelta.Bitstream.Reader.new
    msdelta.Bitstream.Reader.read_narrow msdelta.Bitstream.Reader.read_bits
    msdelta.Bitstream.Words.shl64 msdelta.Bitstream.Words.shr64 msdelta.Bitstream.Words.mask64
    msdelta.Bitstream.Words.trailing_zeros msdelta.Bitstream.Words.leading_zeros
    msdelta.Base.Int.◌+ℤ◌ msdelta.Base.Int.◌-ℤ◌ msdelta.Base.Int.as_i64 msdelta.Base.Int.as_u64
    msdelta.Base.Int.eq_ℤ
patch_runs = refl

decompress_with_copy_source-Traces_example :
    (length {A = ℕ} (65 ∷ 8 ∷ 9 ∷ 65 ∷ []) ≡ 4)
    × Traces (7 ∷ 8 ∷ 9 ∷ []) (65 ∷ 8 ∷ 9 ∷ 65 ∷ []) (negsuc 0 ∷ pos 1 ∷ pos 2 ∷ negsuc 0 ∷ [])
decompress_with_copy_source-Traces_example =
    decompress_with_copy_source-Traces (7 ∷ 8 ∷ 9 ∷ []) patch 4 none _ _ (omega arith) patch_runs

-- A table of two codes of one bit, for the symbols 0 and 38, and a stream that repeats a run of the
-- old lengths until there are 872.
abbrev two_codes : List ℕ
two_codes = 1 ∷ (replicate 37 0 ++ (1 ∷ []))

abbrev runs_reader : BitReader
runs_reader = record {
  bytes = 255 ∷ 255 ∷ 255 ∷ 255 ∷ 255 ∷ 119 ∷ 1 ∷ [];
  pos = 0;
  accum = 0;
  bits = 0;
  padding = 0;
}

abbrev runs_end : BitReader
runs_end = record {
  bytes = 255 ∷ 255 ∷ 255 ∷ 255 ∷ 255 ∷ 119 ∷ 1 ∷ [];
  pos = 7;
  accum = 0;
  bits = 7;
  padding = 0;
}

abbrev pretree : HuffmanTable
pretree = table_of two_codes (codes_of two_codes)

runs_read :
    read_compression_lengths runs_reader pretree (replicate 872 0) ≡ ok (replicate 872 0, runs_end)
unfolding msdelta.Huffman.Codes.longest msdelta.Huffman.Codes.count_lengths
    msdelta.Huffman.Codes.base_codes msdelta.Huffman.Codes.reverse_bits
    msdelta.Huffman.Codes.assign_codes msdelta.Huffman.Codes.codes_of msdelta.Huffman.Table.extras
    msdelta.Huffman.Table.last_slot msdelta.Huffman.Table.build_slots
    msdelta.Huffman.Table.fill_from msdelta.Huffman.Table.fill_symbol
    msdelta.Huffman.Table.fill_symbols msdelta.Huffman.Table.fill_zero
    msdelta.Huffman.Table.table_of msdelta.Huffman.Table.from_lengths
    msdelta.Huffman.Symbols.entry_index msdelta.Huffman.Symbols.take_entry
    msdelta.Huffman.Symbols.read_symbol msdelta.Bitstream.Reader.remaining
    msdelta.Bitstream.Reader.buffered msdelta.Bitstream.Reader.refill_word
    msdelta.Bitstream.Reader.refill_bytes msdelta.Bitstream.Reader.clear_stale
    msdelta.Bitstream.Reader.refill_cleared msdelta.Bitstream.Reader.refill
    msdelta.Bitstream.Reader.peek msdelta.Bitstream.Reader.consume_unchecked
    msdelta.Bitstream.Reader.ensure_bits msdelta.Bitstream.Reader.new
    msdelta.Bitstream.Reader.read_narrow msdelta.Bitstream.Reader.read_bits
    msdelta.Bitstream.Words.shl64 msdelta.Bitstream.Words.shr64 msdelta.Bitstream.Words.mask64
    msdelta.Bitstream.Words.trailing_zeros msdelta.Bitstream.Words.leading_zeros
    msdelta.Lzx.Lengths.read_run_count msdelta.Lzx.Lengths.run_of msdelta.Lzx.Lengths.next_lengths
    msdelta.Lzx.Lengths.lengths_loop msdelta.Lzx.Lengths.checked_lengths
    msdelta.Lzx.Lengths.read_compression_lengths
runs_read = refl

read_compression_lengths-ok_example :
    (length {A = ℕ} (replicate 872 0) ≡ 872)
    × AreShort (replicate 872 0)
    × ((tables : SegmentTables) × (from_all_lengths (replicate 872 0) ≡ ok tables))
read_compression_lengths-ok_example =
    read_compression_lengths-ok runs_reader runs_end pretree (replicate 872 0) (replicate 872 0)
      refl runs_read

abbrev symbol_end : BitReader
symbol_end = record {
  bytes = 255 ∷ 255 ∷ 255 ∷ 255 ∷ 255 ∷ 119 ∷ 1 ∷ [];
  pos = 7;
  accum = 206_708_186_021_887;
  bits = 55;
  padding = 0;
}

-- Two literals behind a reference of one byte.
abbrev small_input : Input
small_input = record {
  reference = 7 ∷ [];
  format = record {
    segments = record { main = pretree; lengths = pretree; aligned = pretree } ∷ [];
    boundaries = 0 ∷ [];
  };
  ort = from_rift_table [];
  end = 3;
}

abbrev small_state : State
small_state = record {
  reader = runs_reader;
  seg_idx = 0;
  lru = Queue.new;
  position = 1;
  written = record { output = []; copy_src = some [] };
}

abbrev small_end : State
small_end = record {
  reader = record symbol_end { accum = 103_354_093_010_943; bits = 54 };
  seg_idx = 0;
  lru = Queue.new;
  position = 3;
  written = record { output = 38 ∷ 38 ∷ []; copy_src = some (negsuc 0 ∷ negsuc 0 ∷ []) };
}

small_run : rounds 2 small_input small_state ≡ ok small_end
unfolding msdelta.Huffman.Codes.longest msdelta.Huffman.Codes.count_lengths
    msdelta.Huffman.Codes.base_codes msdelta.Huffman.Codes.reverse_bits
    msdelta.Huffman.Codes.assign_codes msdelta.Huffman.Codes.codes_of msdelta.Huffman.Table.extras
    msdelta.Huffman.Table.last_slot msdelta.Huffman.Table.build_slots
    msdelta.Huffman.Table.fill_from msdelta.Huffman.Table.fill_symbol
    msdelta.Huffman.Table.fill_symbols msdelta.Huffman.Table.fill_zero
    msdelta.Huffman.Table.table_of msdelta.Huffman.Table.from_lengths
    msdelta.Huffman.Symbols.entry_index msdelta.Huffman.Symbols.take_entry
    msdelta.Huffman.Symbols.read_symbol msdelta.Bitstream.Reader.remaining
    msdelta.Bitstream.Reader.buffered msdelta.Bitstream.Reader.refill_word
    msdelta.Bitstream.Reader.refill_bytes msdelta.Bitstream.Reader.clear_stale
    msdelta.Bitstream.Reader.refill_cleared msdelta.Bitstream.Reader.refill
    msdelta.Bitstream.Reader.peek msdelta.Bitstream.Reader.consume_unchecked
    msdelta.Bitstream.Reader.ensure_bits msdelta.Bitstream.Reader.new
    msdelta.Bitstream.Reader.read_narrow msdelta.Bitstream.Reader.read_bits
    msdelta.Bitstream.Words.shl64 msdelta.Bitstream.Words.shr64 msdelta.Bitstream.Words.mask64
    msdelta.Bitstream.Words.trailing_zeros msdelta.Bitstream.Words.leading_zeros
    msdelta.Lzx.Decoder.rounds msdelta.Lzx.Decoder.round msdelta.Lzx.Decoder.apply_symbol
    msdelta.Lzx.Decoder.push_literal msdelta.Lzx.Decoder.tables_at msdelta.Lzx.Decoder.pass_segments
    msdelta.Lzx.Symbols.read_symbol
small_run = refl

rounds-IsGood_example : IsGood small_input true small_end × (◌≡◌ {A = ℕ} 3 3)
rounds-IsGood_example =
    rounds-IsGood small_input true (omega arith) (omega arith) 2 small_state small_end (omega arith)
      (record { counted = omega arith; inside = omega arith; traces = tt }) small_run
