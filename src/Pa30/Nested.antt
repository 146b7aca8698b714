-- ===== src/Pa30/Nested.antt =====
-- A PA31 delta: the header is a bit stream of its own.
use msdelta.Base.{
  ℕ, ◌+◌, ◌*◌, ◌^◌, ◌≤◌, ◌<◌, ◌≡◌, refl, ◌∙◌, arith, some, List, [], ◌∷◌, length, All,
}
use msdelta.Base.Int.{pos, as_u64, as_i32, as_u32, as_u64-lt}
use msdelta.Base.Bytes.{AreBytes, eq_bytes}
use msdelta.Errors.{ok}
use msdelta.Bitstream.Code.{nibbles_of_fit, join, i64_code, bytes_code, buffer_code, gap-lt}
use msdelta.Bitstream.Fields.Coding.{field_code, fields_code}
use msdelta.Bitstream.Reader.{BitReader}
use msdelta.Bitstream.Fields.{Field, signed, buffer, IsValid, encode}
use msdelta.Bitstream.Fields.Written.{encode-IsStream}
use msdelta.Bitstream.Fields.At.{At, new-At, next_signed, next_buffer}
use msdelta.Pa30.Header.{
  pa31, read_extra, skip_header, header_reader, version_of, parse_header, parse,
}
use msdelta.Pa30.Delta.{Contents, magic_of}
use msdelta.Pa30.Contents.{
  IsForward, header_with, described, header_fields, header_fields-IsValid, header_read,
}
use msdelta.Pa30.Opened.{
  delta_of, header_opened, opened, body_fields, body_fields-IsValid, whole, body_read,
}

-- The header of a PA31 delta, a bit stream of its own, and the fields around it.
unfoldable pub extra_fields : List Field
extra_fields = signed (pos 0) ∷ signed (pos 0) ∷ signed (pos 0) ∷ buffer [] ∷ []

extra_fields-IsValid : All IsValid extra_fields
unfolding extra_fields IsValid
extra_fields-IsValid = (omega arith, (omega arith, (omega arith, ((tt, omega arith), tt))))

unfoldable pub inner_stream : Contents → List ℕ
inner_stream c = encode (header_fields c extra_fields)

unfoldable pub outer_stream : Contents → List ℕ
outer_stream c = encode (buffer (inner_stream c) ∷ body_fields c)

word_width : (v : ℕ) → v < 2 ^ 64 → (i64_code v).width ≤ 80
unfolding i64_code
word_width v lt = let (few, _) = nibbles_of_fit v lt in omega (arith, few)

buffer_width :
    (n : ℕ) (bs : List ℕ) → length bs < 2 ^ 64 → (buffer_code n bs).width ≤ 87 + 8 * length bs
unfolding buffer_code join bytes_code
buffer_width n bs small =
    omega (arith, word_width (length bs) small, gap-lt (n + (i64_code (length bs)).width))

-- The header of a PA31 delta is short.
inner_short : (c : Contents) → IsForward c → length (inner_stream c) < 2 ^ 29
unfolding inner_stream header_fields extra_fields fields_code field_code join
inner_short c g =
    let valid = header_fields-IsValid c extra_fields g extra_fields-IsValid in
    let bits = (encode-IsStream (header_fields c extra_fields) valid).count_is in
    omega (
      arith,
      bits,
      gap-lt (3 + (fields_code 3 (header_fields c extra_fields)).width),
      word_width (as_u64 c.file_type_set) (as_u64-lt c.file_type_set),
      word_width (as_u64 c.file_type) (as_u64-lt c.file_type),
      word_width (as_u64 c.flags) (as_u64-lt c.flags),
      word_width (as_u64 (pos c.target_size)) (as_u64-lt (pos c.target_size)),
      word_width (as_u64 (pos c.hash_alg)) (as_u64-lt (pos c.hash_alg)),
      word_width (as_u64 (pos 0)) (as_u64-lt (pos 0)),
      λ (n : ℕ). buffer_width n c.target_hash (omega (arith, g.hash_short)),
      λ (n : ℕ). buffer_width n [] (omega arith),
    )

extra_read :
    {r : BitReader}
    → At r extra_fields
    → read_extra pa31 r
      ≡ ok (some (record { field1 = pos 0; field2 = pos 0; field3 = pos 0; extra_hash = [] }))
unfolding extra_fields read_extra as_i32 as_u32 as_u64
extra_read a =
    let (r1, e1, a1) = next_signed a in
    let (r2, e2, a2) = next_signed a1 in
    let (r3, e3, a3) = next_signed a2 in let (r4, e4, a4) = next_buffer a3 in rw (e1, e2, e3, e4)

pub nested-parse :
    (c : Contents)
    → IsForward c
    → length (outer_stream c) < 2 ^ 29
    → (parse_header (delta_of pa31 (outer_stream c)) ≡ ok (described pa31 c))
      × (parse (delta_of pa31 (outer_stream c)) ≡ ok (whole pa31 c))
unfolding inner_stream outer_stream header_reader skip_header described IsValid version_of eq_bytes
    magic_of header_with
nested-parse c g small =
    let valid = header_fields-IsValid c extra_fields g extra_fields-IsValid in
    let short = inner_short c g in
    let inner : AreBytes (inner_stream c) =
      (encode-IsStream (header_fields c extra_fields) valid).are_bytes in
    let (r, e0, a) =
      new-At (buffer (inner_stream c) ∷ body_fields c)
        ((inner, omega (arith, short)), body_fields-IsValid c g) small in
    let (r', e1, a') = next_buffer a in
    let (i, e2, b) = new-At (header_fields c extra_fields) valid short in
    let (i', b', _, header) = header_read c extra_fields g b in
    let parsed =
      header_opened pa31 pa31 (outer_stream c) r i (described pa31 c) refl e0 (rw (e1, e2))
        (header pa31 ∙ rw (extra_read b')) in
    (
      parsed,
      opened pa31 pa31 (outer_stream c) r r' (described pa31 c) (whole pa31 c) refl e0 (rw e1)
          parsed (body_read c pa31 (described pa31 c) g refl a'),
    )
