-- ===== src/Lzx/Rift/Serial.antt =====
-- src/lzx/rift.rs: a rift table in the bit stream, as the differences of its sources and offsets.
use msdelta.Base.{ℕ, zero, suc, ◌||◌, List, [], ◌∷◌, length, ltb, ◌==◌, if◌then◌else◌}
use msdelta.Base.Int.{ℤ, pos, ◌+ℤ◌, ◌-ℤ◌, as_i64, as_u64, ltb_ℤ}
use msdelta.Errors.{Result, ok, err, malformed, ◌>>=◌}
use msdelta.Bitstream.Reader.{BitReader, read_bits, read_i64, remaining}
use msdelta.Bitstream.Writer.{BitWriter, write_i64}
use msdelta.Lzx.Rift.{RiftEntry}
use msdelta.Lzx.Rift.Coder
use msdelta.Lzx.Rift.Coder.{IntFormat, read_number, write_number}
use msdelta.Lzx.Rift.Sum.{sort_entries}

abbrev pub wrapping : ℤ → ℤ
wrapping v = as_i64 (as_u64 v)

unfoldable pub read_entries :
    IntFormat → IntFormat → ℕ → ℤ → ℤ → BitReader → Result (List RiftEntry × BitReader)
read_entries fmt_src fmt_dst zero src_acc dst_acc r = ok ([], r)
read_entries fmt_src fmt_dst (suc n) src_acc dst_acc r = do
  (src_delta, r1) ← read_number fmt_src r
  let src = wrapping (src_acc +ℤ src_delta)
  (dst_delta, r2) ← read_number fmt_dst r1
  let dst = wrapping (dst_acc +ℤ dst_delta)
  (rest, r3) ← read_entries fmt_src fmt_dst n src dst r2
  ok (record { source = src; target = wrapping (dst +ℤ src) } ∷ rest, r3)

-- A table has no more entries than there are bits left.
unfoldable pub from_reader_with_formats :
    BitReader → IntFormat → IntFormat → Result (List RiftEntry × BitReader)
from_reader_with_formats r fmt_src fmt_dst = do
  (count, r1) ← read_i64 r
  if ltb_ℤ count (pos 0) || ltb (remaining r1) (as_u64 count)
      then err (malformed "rift table entry count exceeds available input")
      else (do
        (entries, r2) ← read_entries fmt_src fmt_dst (as_u64 count) (pos 0) (pos 0) r1
        ok (sort_entries entries, r2))

unfoldable pub from_reader : BitReader → Result (List RiftEntry × BitReader)
from_reader r = do
  (has_entries, r1) ← read_bits 1 r
  if has_entries == 0 then ok ([], r1) else (do
    (fmt_src, r2) ← Coder.from_reader r1
    (fmt_dst, r3) ← Coder.from_reader r2
    from_reader_with_formats r3 fmt_src fmt_dst)

unfoldable pub write_entries :
    IntFormat → IntFormat → ℤ → ℤ → List RiftEntry → BitWriter → BitWriter
write_entries fmt_src fmt_dst src_acc dst_acc [] w = w
write_entries fmt_src fmt_dst src_acc dst_acc (e ∷ es) w =
    let offset = wrapping (e.target -ℤ e.source) in
    write_entries fmt_src fmt_dst e.source offset es (
      write_number fmt_dst (wrapping (offset -ℤ dst_acc))
        (write_number fmt_src (wrapping (e.source -ℤ src_acc)) w))

unfoldable pub to_writer_with_formats :
    List RiftEntry → IntFormat → IntFormat → BitWriter → BitWriter
to_writer_with_formats entries fmt_src fmt_dst w =
    write_entries fmt_src fmt_dst (pos 0) (pos 0) entries (write_i64 (pos (length entries)) w)
