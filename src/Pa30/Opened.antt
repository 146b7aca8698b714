-- ===== src/Pa30/Opened.antt =====
-- `parse` and `parse_header` behind the first twelve bytes, and the two buffers at the end.
use msdelta.Base.{
  ℕ, ◌≡◌, arith, bit_and, true, List, [], ◌∷◌, ◌++◌, length, All, le→ltb, ◌==◌, eq→==,
}
use msdelta.Base.Int.{as_u64}
use msdelta.Base.Bytes.{eq_bytes, le_bytes, le_num}
use msdelta.Errors.{ok}
use msdelta.Bitstream.Reader.{BitReader, read_i64, read_buffer}
use msdelta.Bitstream.Reader
use msdelta.Bitstream.Fields.{Field, buffer, IsValid}
use msdelta.Bitstream.Fields.At.{At, next_buffer}
use msdelta.Pa30.Header.{
  FormatVersion, pa19, pa30, pa31, Header, ParsedDelta, read_header, skip_header, header_reader,
  version_of, read_body, parse_header, parse,
}
use msdelta.Pa30.Delta.{Contents, magic_of}
use msdelta.Pa30.Contents.{IsForward, described}

-- A delta's bytes before its bit stream are twelve.
unfoldable pub delta_of : FormatVersion → List ℕ → List ℕ
delta_of v s = magic_of v ++ (le_bytes 8 0 ++ s)

pub header_opened :
    (v w : FormatVersion) (s : List ℕ) (outer reader : BitReader) (h : Header)
    → version_of (magic_of v) ≡ ok w
    → Reader.new s ≡ ok outer
    → header_reader w outer ≡ ok reader
    → read_header w 0 reader ≡ ok h
    → parse_header (delta_of v s) ≡ ok h
unfolding parse_header delta_of magic_of eq_bytes le_bytes le_num
header_opened pa30 w s outer reader h e1 e2 e3 e4 =
    rw (le→ltb {a = length (delta_of pa30 s)} {b = 12} (omega arith), e1, e2, e3, e4)
header_opened pa31 w s outer reader h e1 e2 e3 e4 =
    rw (le→ltb {a = length (delta_of pa31 s)} {b = 12} (omega arith), e1, e2, e3, e4)
header_opened pa19 w s outer reader h e1 e2 e3 e4 =
    rw (le→ltb {a = length (delta_of pa19 s)} {b = 12} (omega arith), e1, e2, e3, e4)

pub opened :
    (v w : FormatVersion) (s : List ℕ) (outer behind : BitReader) (h : Header) (p : ParsedDelta)
    → version_of (magic_of v) ≡ ok w
    → Reader.new s ≡ ok outer
    → skip_header w outer ≡ ok behind
    → parse_header (delta_of v s) ≡ ok h
    → read_body h behind ≡ ok p
    → parse (delta_of v s) ≡ ok p
unfolding parse delta_of magic_of eq_bytes le_bytes
opened pa30 w s outer behind h p e1 e2 e3 e4 e5 =
    rw (le→ltb {a = length (delta_of pa30 s)} {b = 12} (omega arith), e1, e2, e3, e4, e5)
opened pa31 w s outer behind h p e1 e2 e3 e4 e5 =
    rw (le→ltb {a = length (delta_of pa31 s)} {b = 12} (omega arith), e1, e2, e3, e4, e5)
opened pa19 w s outer behind h p e1 e2 e3 e4 e5 =
    rw (le→ltb {a = length (delta_of pa19 s)} {b = 12} (omega arith), e1, e2, e3, e4, e5)

unfoldable pub body_fields : Contents → List Field
body_fields c = buffer c.preprocess ∷ buffer c.patch_data ∷ []

pub body_fields-IsValid : (c : Contents) → IsForward c → All IsValid (body_fields c)
unfolding body_fields IsValid
body_fields-IsValid c g =
    ((g.preprocess_bytes, g.preprocess_fits), ((g.patch_bytes, g.patch_fits), tt))

abbrev pub whole : FormatVersion → Contents → ParsedDelta
whole v c = record { header = described v c; preprocess = c.preprocess; patch_data = c.patch_data }

pub body_read :
    {r : BitReader} (c : Contents) (v : FormatVersion) (h : Header)
    → IsForward c
    → h.file_type_set ≡ c.file_type_set
    → At r (body_fields c)
    → read_body h r
      ≡ ok (record { header = h; preprocess = c.preprocess; patch_data = c.patch_data })
unfolding body_fields read_body
body_read c v h g same a =
    let (r1, e1, a1) = next_buffer a in
    let (r2, e2, a2) = next_buffer a1 in
    let forward : (bit_and (as_u64 h.file_type_set) 0x100 == 0) ≡ true =
      rw same (eq→== g.forward) in
    rw (forward, e1, e2)
