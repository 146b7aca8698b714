-- ===== src/Examples/Headers.antt =====
-- Headers and wrappers at concrete inputs.
use msdelta.Base.{
  ℕ, ◌<◌, ◌≤◌, ◌^◌, ◌≡◌, ◌↔◌, refl, arith, List, [], ◌∷◌, length, take, drop, replicate, ◌++◌,
  ltb→lt, some,
}
use msdelta.Base.Int.{pos, as_u64}
use msdelta.Base.Bytes.{le_num, le_bytes, eq_bytes}
use msdelta.Errors.{ok}
use msdelta.Bitstream.Words.{shl64, shr64, mask64, leading_zeros}
use msdelta.Bitstream.Writer
use msdelta.Bitstream.Writer.{
  write_bits, write_over, write_within, flush, flush_words, write_i64, write_u64, write_low,
  write_high, low_nibbles, write_buffer, write_bytes, align_to_byte, pad_by, finish, put_padding,
  flush_final,
}
use msdelta.Dcm.{strip, wrap}
use msdelta.Dcm.Wrapping.{strip-wrap_iff}
use msdelta.Pa19
use msdelta.Pa19.{
  PatchHeader, Lzxd, u32_le, window_size, interleave, data_offset, header_size, is_pa19,
  decompress_delta, lzxd_result, checked,
}
use msdelta.Pa19.Crc.{crc32, crc_from}
use msdelta.Pa19.E8.{e8_transform_decode}
use msdelta.Pa19.Kept.{KeepsFrom, e8_transform_decode-KeepsFrom}
use msdelta.Pa19.Layout.{IsLaidOut, header_bytes, header_size-laid_out}
use msdelta.Pa19.Size.{apply_sound}
use msdelta.Pa30.Header.{pa31, parse_header, parse}
use msdelta.Pa30.Delta.{Contents, write_header, write_extra, write_outer, write_delta, magic_of}
use msdelta.Pa30.Contents.{IsForward, described}
use msdelta.Pa30.Faithful.{parse-write_delta}

-- "DCM", 1, and a payload.
strip-wrap_iff_example :
    (strip (0x44 ∷ 0x43 ∷ 0x4d ∷ 0x01 ∷ 0x50 ∷ []) ≡ ok (0x50 ∷ []))
    ↔ (0x44 ∷ 0x43 ∷ 0x4d ∷ 0x01 ∷ 0x50 ∷ [] ≡ wrap (0x50 ∷ []))
strip-wrap_iff_example = strip-wrap_iff (0x44 ∷ 0x43 ∷ 0x4d ∷ 0x01 ∷ 0x50 ∷ []) (0x50 ∷ [])

-- A PA19 patch from an empty file to an empty file, and a decoder that gives it.
abbrev patch : List ℕ
patch =
    0x50 ∷ 0x41 ∷ 0x31 ∷ 0x39 ∷ 0 ∷ 0 ∷ 0 ∷ 0 ∷ 0 ∷ 0 ∷ 0 ∷ 0 ∷ 0 ∷ 0 ∷ 0 ∷ 0 ∷ 0 ∷ 0 ∷ 0 ∷ 0 ∷ 0xff
    ∷ 0xff ∷ 0xff ∷ 0xff ∷ 1 ∷ 2 ∷ 3 ∷ 4 ∷ []

abbrev empty_decoder : Lzxd
empty_decoder window bytes size = some []

-- A header with a window and one interleave entry.
abbrev extended : PatchHeader
extended = record {
  old_file_size = 5;
  old_file_crc = 6;
  new_file_size = 70_000;
  new_file_crc = 8;
  flags = 12;
  lzx_window_size = 0x2_0000;
  interleave_count = 1;
}

extended-IsLaidOut : IsLaidOut extended 17 (replicate 12 9)
extended-IsLaidOut = record {
  flags_fit = omega arith;
  old_size_fit = omega arith;
  old_crc_fit = omega arith;
  new_size_fit = omega arith;
  new_crc_fit = omega arith;
  count_fit = omega arith;
  exponent_fit = omega arith;
  window_is = refl;
  no_count = λ e. cc;
  whole_entries = refl;
  ordered = λ e. refl;
}

extended-long : 36 ≤ length (header_bytes extended 17 (replicate 12 9) ++ (1 ∷ 2 ∷ []))
unfolding header_bytes le_bytes
extended-long = omega arith

header_size-laid_out_example :
    let head = header_bytes extended 17 (replicate 12 9) in
    (Pa19.decode (head ++ (1 ∷ 2 ∷ [])) ≡ ok extended)
    × (header_size (head ++ (1 ∷ 2 ∷ [])) ≡ ok (length head))
    × (drop (length head) (head ++ (1 ∷ 2 ∷ [])) ≡ 1 ∷ 2 ∷ [])
header_size-laid_out_example =
    header_size-laid_out extended 17 (replicate 12 9) (1 ∷ 2 ∷ []) extended-IsLaidOut extended-long

patch-applied : Pa19.apply empty_decoder [] patch ≡ ok []
unfolding Pa19.apply is_pa19 eq_bytes header_size Pa19.decode window_size interleave u32_le
    data_offset le_num decompress_delta lzxd_result checked crc32 crc_from
patch-applied = refl

apply_sound_example :
    (hdr : PatchHeader) × (Pa19.parse_header patch ≡ ok hdr)
    × (take 4 patch ≡ Pa19.magic)
    × (0 ≡ hdr.old_file_size)
    × (crc32 [] ≡ hdr.new_file_crc)
apply_sound_example = apply_sound empty_decoder [] patch [] patch-applied

-- The contents of a small raw delta.
abbrev contents : Contents
contents = record {
  file_type_set = pos 1;
  file_type = pos 1;
  flags = pos 0x2_0000;
  target_size = 415;
  hash_alg = 0x8003;
  target_hash = 1 ∷ 2 ∷ 3 ∷ [];
  preprocess = [];
  patch_data = 9 ∷ 8 ∷ 7 ∷ [];
}

contents-IsForward : IsForward contents
unfolding as_u64
contents-IsForward = record {
  set_fits = omega arith;
  type_fits = omega arith;
  flags_fit = omega arith;
  size_fits = omega arith;
  alg_fits = omega arith;
  hash_bytes = (omega arith, (omega arith, (omega arith, tt)));
  hash_short = omega arith;
  preprocess_bytes = tt;
  preprocess_fits = omega arith;
  patch_bytes = (omega arith, (omega arith, (omega arith, tt)));
  patch_fits = omega arith;
  forward = refl;
}

delta-short : length (write_delta pa31 contents) < 2 ^ 29
unfolding write_delta write_outer write_header write_extra magic_of Writer.new write_bits write_over
    write_within flush flush_words write_i64 write_u64 write_low write_high low_nibbles write_buffer
    write_bytes align_to_byte pad_by finish put_padding flush_final le_bytes shl64 shr64 mask64
    leading_zeros as_u64
delta-short = ltb→lt refl

parse-write_delta_example :
    (parse_header (write_delta pa31 contents) ≡ ok (described pa31 contents))
    × (parse (write_delta pa31 contents)
        ≡ ok (record {
          header = described pa31 contents;
          preprocess = [];
          patch_data = 9 ∷ 8 ∷ 7 ∷ [];
        }))
parse-write_delta_example = parse-write_delta pa31 contents contents-IsForward delta-short

-- A call with the absolute target 3, at offset 1.
abbrev call_code : List ℕ
call_code = 0x90 ∷ 0xE8 ∷ 3 ∷ 0 ∷ 0 ∷ 0 ∷ 0x90 ∷ []

e8_transform_decode-KeepsFrom_example : KeepsFrom 7 call_code (e8_transform_decode call_code)
e8_transform_decode-KeepsFrom_example = e8_transform_decode-KeepsFrom call_code
