-- ===== src/Lzx/Decoder.antt =====
-- src/lzx/decode.rs and src/lzx/mod.rs: the decompressor.
use msdelta.Base.{
  ℕ, zero, suc, ◌+◌, ◌-◌, ◌%◌, ◌^◌, ◌&&◌, min, max, Option, none, some, List, [], ◌∷◌, ◌++◌, length,
  get_or, ltb, leb, ◌==◌, if◌then◌else◌,
}
use msdelta.Base.Int.{ℤ, pos, negsuc, ◌-ℤ◌, as_u64, as_i64}
use msdelta.Errors.{Result, ok, err, malformed, ◌>>=◌}
use msdelta.Bitstream.Reader
use msdelta.Bitstream.Reader.{BitReader, read_bits, remaining}
use msdelta.Lzx.Ops.{source_copy_raw, lru_base_raw, raw_offset_base, offset_bias}
use msdelta.Lzx.Queue
use msdelta.Lzx.Queue.{LruQueue, entry, update}
use msdelta.Lzx.Rift.{RiftEntry}
use msdelta.Lzx.Rift.Sum.{sort_entries}
use msdelta.Lzx.Rift.Serial
use msdelta.Lzx.Rift.Serial.{wrapping}
use msdelta.Lzx.Rift.Offsets.{OffsetRiftTable, from_rift_table, offset_at, segment_at}
use msdelta.Lzx.Copy.{Written, traced, copy_one}
use msdelta.Lzx.Symbols.{SegmentTables, from_flat, read_symbol}
use msdelta.Lzx.Lengths.{CompositeFormat, read_composite_format}
use msdelta.Huffman.Table.{HuffmanTable}

-- What does not change while a patch is decompressed.
pub record Input : Type 0 where
  pub reference : List ℕ
  pub format : CompositeFormat
  pub ort : OffsetRiftTable
  pub end : ℕ

pub record State : Type 0 where
  pub reader : BitReader
  pub seg_idx : ℕ
  pub lru : LruQueue
  pub position : ℕ
  pub written : Written

abbrev no_table : HuffmanTable
no_table = record { slots = []; entries = []; lengths = []; codes = [] }

-- `segments[seg_idx]`; the index stays in range.
unfoldable pub tables_at : List SegmentTables → ℕ → SegmentTables
tables_at segments seg_idx =
    get_or segments seg_idx (record { main = no_table; lengths = no_table; aligned = no_table })

-- The segments that the position has passed; there are no more of them than segments.
unfoldable pub pass_segments : ℕ → CompositeFormat → ℕ → ℕ → ℕ
pass_segments zero format position seg_idx = seg_idx
pass_segments (suc n) format position seg_idx =
    let rest = pass_segments n format position (suc seg_idx) in
    if ltb (seg_idx + 1) (length format.segments)
      && (ltb (seg_idx + 1) (length format.boundaries)
          && leb (get_or format.boundaries (seg_idx + 1) 0) position)
    then rest
    else seg_idx

-- The distance of a match, in i64.
unfoldable pub distance_of : LruQueue → ℤ → ℕ → ℤ
distance_of lru rift_offset raw_offset =
    if raw_offset == source_copy_raw
    then wrapping (pos 0 -ℤ rift_offset)
    else if ltb raw_offset source_copy_raw
    then wrapping ((pos raw_offset -ℤ pos offset_bias) -ℤ rift_offset)
    else if leb lru_base_raw raw_offset && ltb raw_offset (lru_base_raw + 3)
    then entry lru (raw_offset - lru_base_raw)
    else pos (raw_offset - raw_offset_base)

unfoldable pub push_literal : ℕ → Written → Written
push_literal byte w = record {
  output = w.output ++ (byte ∷ []);
  copy_src = traced (λ p. p ++ (negsuc 0 ∷ [])) w.copy_src;
}

-- How far a source copy goes before the rift changes.
unfoldable pub chunk_of : ℤ → ℕ → ℕ → ℕ
chunk_of next_bp p remaining = min remaining (max (as_u64 next_bp - p) 1)

-- The copy that takes its source anew at each entry of the rift; each round copies a byte at least,
-- so `remaining` rounds are enough.
unfoldable pub walk : ℕ → Input → ℕ → ℕ → Written → Result Written
walk zero input p remaining w = ok w
walk (suc fuel) input p remaining w =
    let (seg_off, next_bp) = segment_at input.ort (as_i64 p) in
    let chunk = chunk_of next_bp p remaining in
    let rest = (do
      w' ← copy_one input.reference (length input.reference) p (wrapping (pos 0 -ℤ seg_off)) chunk w
      walk fuel input (p + chunk) (remaining - chunk) w') in
    if remaining == 0 then ok w else rest

unfoldable pub copy_match : Input → ℕ → ℤ → ℕ → ℕ → Written → Result Written
copy_match input raw_offset distance position copy_len w =
    if raw_offset == source_copy_raw
    then walk copy_len input position copy_len w
    else copy_one input.reference (length input.reference) position distance copy_len w

unfoldable pub apply_symbol : Input → ℕ → ℕ → State → Result State
apply_symbol input raw_offset match_len s =
    let copy_len = min match_len (input.end - s.position) in
    let distance = distance_of s.lru (offset_at input.ort (as_i64 s.position)) raw_offset in
    if match_len == 1 && ltb raw_offset 256
    then ok (record s {
      position = s.position + 1;
      written = push_literal (raw_offset % 2 ^ 8) s.written;
    })
    else (do
      w ← copy_match input raw_offset distance s.position copy_len s.written
      ok (record s { lru = update s.lru distance; position = s.position + copy_len; written = w }))

-- A round of the loop.
unfoldable pub round : Input → State → Result State
round input s =
    let format = input.format in
    let seg_idx = pass_segments (length format.segments) format s.position s.seg_idx in
    if remaining s.reader == 0
    then err (malformed "bitstream exhausted before target filled")
    else (do
      ((raw_offset, match_len), reader) ← read_symbol (tables_at format.segments seg_idx) s.reader
      apply_symbol input raw_offset match_len (record s { reader = reader; seg_idx = seg_idx }))

-- Each round makes a byte at least, so a round for each byte of the target is enough.
unfoldable pub rounds : ℕ → Input → State → Result State
rounds zero input s = ok s
rounds (suc fuel) input s =
    let rest = (do s' ← round input s; rounds fuel input s') in
    if ltb s.position input.end then rest else ok s

unfoldable pub read_format : BitReader → Result (CompositeFormat × BitReader)
read_format r = do
  (cf_simple, r1) ← read_bits 1 r
  if cf_simple == 0 then read_composite_format r1 else (do
    tables ← from_flat
    ok (record { segments = tables ∷ []; boundaries = (2 ^ 64 - 1) ∷ [] }, r1))

-- The entries of the patch, of the caller and of the reference's end, by their sources.
unfoldable pub merged : List RiftEntry → Option (List RiftEntry) → ℕ → List RiftEntry
merged entries none ref_len =
    sort_entries (entries ++ (record { source = pos ref_len; target = pos 0 } ∷ []))
merged entries (some more) ref_len =
    sort_entries ((entries ++ more) ++ (record { source = pos ref_len; target = pos 0 } ∷ []))

unfoldable pub finished : ℕ → State → Result Written
finished target_size s =
    if length s.written.output == target_size
    then ok s.written
    else err (malformed "output size mismatch")

unfoldable pub run : ℕ → Input → State → Result Written
run target_size input s = do s' ← rounds target_size input s; finished target_size s'

unfoldable pub decompress_into :
    List ℕ → List ℕ → ℕ → Option (List RiftEntry) → Written → Result Written
decompress_into reference [] target_size caller_rift w =
    if target_size == 0 then ok w else err (malformed "empty patch data for non-zero target")
decompress_into reference (b ∷ bs) target_size caller_rift w = do
  r ← Reader.new (b ∷ bs)
  (entries, r1) ← Serial.from_reader r
  (format, r2) ← read_format r1
  run target_size
      (record {
        reference = reference;
        format = format;
        ort = from_rift_table (merged entries caller_rift (length reference));
        end = length reference + target_size;
      })
      (record {
        reader = r2;
        seg_idx = 0;
        lru = Queue.new;
        position = length reference;
        written = w;
      })

unfoldable pub decompress_with_rift :
    List ℕ → List ℕ → ℕ → Option (List RiftEntry) → Result (List ℕ)
decompress_with_rift reference patch_data target_size caller_rift = do
  w ←
      decompress_into reference patch_data target_size caller_rift
        (record { output = []; copy_src = none })
  ok w.output

unfoldable pub decompress : List ℕ → List ℕ → ℕ → Result (List ℕ)
decompress reference patch_data target_size =
    decompress_with_rift reference patch_data target_size none

abbrev pub provenance : Option (List ℤ) → List ℤ
provenance none = []
provenance (some p) = p

unfoldable pub decompress_with_copy_source :
    List ℕ → List ℕ → ℕ → Option (List RiftEntry) → Result (List ℕ × List ℤ)
decompress_with_copy_source reference patch_data target_size caller_rift = do
  w ←
      decompress_into reference patch_data target_size caller_rift
        (record { output = []; copy_src = some [] })
  ok (w.output, provenance w.copy_src)
