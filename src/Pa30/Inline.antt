-- ===== src/Pa30/Inline.antt =====
-- A PA30 delta: the header stands in the outer bit stream.
use msdelta.Base.{ℕ, ◌^◌, ◌<◌, ◌≡◌, refl, List, length}
use msdelta.Errors.{ok}
use msdelta.Bitstream.Fields.{encode}
use msdelta.Bitstream.Fields.At.{new-At}
use msdelta.Pa30.Header.{
  FormatVersion, pa30, read_extra, header_reader, version_of, parse_header, parse,
}
use msdelta.Pa30.Delta.{Contents, magic_of}
use msdelta.Pa30.Contents.{
  IsForward, header_with, described, header_fields, header_fields-IsValid, header_read,
}
use msdelta.Pa30.Opened.{
  delta_of, header_opened, opened, body_fields, body_fields-IsValid, whole, body_read,
}

-- The bit stream of a delta whose header stands in it.
unfoldable pub inline_stream : Contents → List ℕ
inline_stream c = encode (header_fields c (body_fields c))

pub inline-parse :
    (v : FormatVersion) (c : Contents)
    → version_of (magic_of v) ≡ ok pa30
    → IsForward c
    → length (inline_stream c) < 2 ^ 29
    → (parse_header (delta_of v (inline_stream c)) ≡ ok (described pa30 c))
      × (parse (delta_of v (inline_stream c)) ≡ ok (whole pa30 c))
unfolding inline_stream header_reader read_extra described header_with
inline-parse v c e g small =
    let (r, e0, a) =
      new-At (header_fields c (body_fields c))
        (header_fields-IsValid c (body_fields c) g (body_fields-IsValid c g)) small in
    let (r', a', skipped, header) = header_read c (body_fields c) g a in
    let parsed =
      header_opened v pa30 (inline_stream c) r r (described pa30 c) e e0 refl (header pa30) in
    (
      parsed,
      opened v pa30 (inline_stream c) r r' (described pa30 c) (whole pa30 c) e e0 skipped parsed
          (body_read c pa30 (described pa30 c) g refl a'),
    )
