-- ===== src/Pa30/Contents.antt =====
-- What a forward delta holds, and how its header is read.
use msdelta.Base.{
  ◌+◌, ◌^◌, ◌≤◌, ◌<◌, ◌≡◌, arith, bit_and, false, Option, none, some, List, [], ◌∷◌, length, All,
  le→ltb, ltb,
}
use msdelta.Base.Int.{pos, as_u64, as_i32, as_i32-id, IsI64}
use msdelta.Base.Bytes.{AreBytes}
use msdelta.Errors.{ok, ◌>>=◌}
use msdelta.Bitstream.Reader.{BitReader}
use msdelta.Bitstream.Fields.{Field, signed, buffer, IsValid}
use msdelta.Bitstream.Fields.At.{At, next_signed, next_buffer}
use msdelta.Pa30.Header.{
  FormatVersion, pa19, pa30, pa31, Pa31Extra, Header, read_extra, read_header, skip_header,
}
use msdelta.Pa30.Delta.{Contents}

-- What the encoder puts into a forward delta.
pub record IsForward (c : Contents) : Type 0 where
  pub set_fits : IsI64 c.file_type_set
  pub type_fits : IsI64 c.file_type
  pub flags_fit : IsI64 c.flags
  pub size_fits : c.target_size < 2 ^ 63
  pub alg_fits : c.hash_alg < 2 ^ 31
  pub hash_bytes : AreBytes c.target_hash
  pub hash_short : length c.target_hash ≤ 33
  pub preprocess_bytes : AreBytes c.preprocess
  pub preprocess_fits : length c.preprocess < 2 ^ 63
  pub patch_bytes : AreBytes c.patch_data
  pub patch_fits : length c.patch_data < 2 ^ 63
  pub forward : bit_and (as_u64 c.file_type_set) 0x100 ≡ 0

-- The header that the contents describe.
unfoldable pub header_with : FormatVersion → Option Pa31Extra → Contents → Header
header_with version extra c = record {
  version = version;
  target_file_time = 0;
  file_type_set = c.file_type_set;
  file_type = c.file_type;
  flags = c.flags;
  target_size = pos c.target_size;
  hash_alg_id = pos c.hash_alg;
  target_hash = c.target_hash;
  pa31_extra = extra;
}

unfoldable pub described : FormatVersion → Contents → Header
described pa31 c =
    header_with pa31
      (some (record { field1 = pos 0; field2 = pos 0; field3 = pos 0; extra_hash = [] })) c
described pa30 c = header_with pa30 none c
described pa19 c = header_with pa30 none c

unfoldable pub header_fields : Contents → List Field → List Field
header_fields c fs =
    signed c.file_type_set
    ∷ signed c.file_type
    ∷ signed c.flags
    ∷ signed (pos c.target_size)
    ∷ signed (pos c.hash_alg)
    ∷ buffer c.target_hash
    ∷ fs

pub header_fields-IsValid :
    (c : Contents) (fs : List Field)
    → IsForward c
    → All IsValid fs
    → All IsValid (header_fields c fs)
unfolding header_fields IsValid
header_fields-IsValid c fs g h = (
  g.set_fits,
  (
    g.type_fits,
    (
      g.flags_fit,
      (g.size_fits, (omega (arith, g.alg_fits), ((g.hash_bytes, omega (arith, g.hash_short)), h))),
    ),
  ),
)

-- The header's fields are read, or skipped, up to the reader behind them.
pub header_read :
    {r : BitReader} (c : Contents) (fs : List Field)
    → IsForward c
    → At r (header_fields c fs)
    → (r' : BitReader) × At r' fs
      × (skip_header pa30 r ≡ ok r')
      × ((version : FormatVersion)
          → read_header version 0 r
            ≡ (do extra ← read_extra version r'; ok (header_with version extra c)))
unfolding header_fields read_header skip_header header_with
header_read c fs g a =
    let (r1, e1, a1) = next_signed a in
    let (r2, e2, a2) = next_signed a1 in
    let (r3, e3, a3) = next_signed a2 in
    let (r4, e4, a4) = next_signed a3 in
    let (r5, e5, a5) = next_signed a4 in
    let (r6, e6, a6) = next_buffer a5 in
    let alg : as_i32 (pos c.hash_alg) ≡ pos c.hash_alg = as_i32-id (pos c.hash_alg) g.alg_fits in
    let sign : ltb (c.target_size + 0) 0 ≡ false = le→ltb (omega arith) in
    (
      r6,
      a6,
      rw (e1, e2, e3, e4, e5, e6),
      λ version. rw (e1, e2, e3, e4, e5, e6, le→ltb g.hash_short, sign, alg),
    )
