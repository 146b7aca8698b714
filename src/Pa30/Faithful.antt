-- ===== src/Pa30/Faithful.antt =====
-- The written delta is parsed back.
use msdelta.Base.{◌^◌, ◌<◌, ◌≡◌, refl, arith, length}
use msdelta.Base.Bytes.{eq_bytes, le_bytes}
use msdelta.Errors.{ok}
use msdelta.Bitstream.Fields.{write_field, write_fields, encode}
use msdelta.Pa30.Header.{FormatVersion, pa19, pa30, pa31, version_of, parse_header, parse}
use msdelta.Pa30.Delta.{Contents, magic_of, write_header, write_extra, write_outer, write_delta}
use msdelta.Pa30.Contents.{IsForward, described, header_fields}
use msdelta.Pa30.Opened.{delta_of, body_fields}
use msdelta.Pa30.Inline.{inline_stream, inline-parse}
use msdelta.Pa30.Nested.{extra_fields, inner_stream, outer_stream, nested-parse}

-- What the encoder writes of a forward delta of less than 512 MiB, `parse` and `parse_header` read
-- back: the header with its version and every field, the preprocessing buffer and the patch. A
-- delta of the version PA19 is written as PA30.
pub parse-write_delta :
    (v : FormatVersion) (c : Contents)
    → IsForward c
    → length (write_delta v c) < 2 ^ 29
    → (parse_header (write_delta v c) ≡ ok (described v c))
      × (parse (write_delta v c)
          ≡ ok (record {
            header = described v c;
            preprocess = c.preprocess;
            patch_data = c.patch_data;
          }))
unfolding write_delta write_outer write_header write_extra encode write_fields write_field delta_of
    header_fields body_fields inline_stream outer_stream inner_stream extra_fields described
    magic_of version_of eq_bytes le_bytes
parse-write_delta pa30 c g small = inline-parse pa30 c refl g (omega (arith, small))
parse-write_delta pa19 c g small = inline-parse pa19 c refl g (omega (arith, small))
parse-write_delta pa31 c g small = nested-parse c g (omega (arith, small))
