-- ===== src/Pa30/Header.antt =====
-- src/pa30/header.rs: a delta's header and its buffers.
use msdelta.Base.{
  ℕ, bit_and, Option, none, some, List, [], ◌∷◌, length, take, drop, ltb, ◌==◌, if◌then◌else◌,
}
use msdelta.Base.Int.{ℤ, pos, as_u64, as_i32, ltb_ℤ}
use msdelta.Base.Bytes.{eq_bytes, le_num}
use msdelta.Errors.{truncated, malformed, bad_magic, hash_too_large}
use msdelta.Errors.{Result, ok, err, ◌>>=◌}
use msdelta.Bitstream.Reader.{BitReader, new, read_i64, read_buffer}
use msdelta.Pa19

-- b"PA30" and b"PA31"
abbrev pub pa30_magic : List ℕ
pa30_magic = 0x50 ∷ 0x41 ∷ 0x33 ∷ 0x30 ∷ []

abbrev pub pa31_magic : List ℕ
pa31_magic = 0x50 ∷ 0x41 ∷ 0x33 ∷ 0x31 ∷ []

pub data FormatVersion : Type 0 where
  pa19 pa30 pa31 : FormatVersion

pub record Pa31Extra : Type 0 where
  pub field1 : ℤ
  pub field2 : ℤ
  pub field3 : ℤ
  pub extra_hash : List ℕ

pub record Header : Type 0 where
  pub version : FormatVersion
  pub target_file_time : ℕ
  pub file_type_set : ℤ
  pub file_type : ℤ
  pub flags : ℤ
  pub target_size : ℤ
  pub hash_alg_id : ℤ
  pub target_hash : List ℕ
  pub pa31_extra : Option Pa31Extra

pub record ParsedDelta : Type 0 where
  pub header : Header
  pub preprocess : List ℕ
  pub patch_data : List ℕ

-- The header that stands for a PA19 patch.
unfoldable pub pa19_header : Pa19.PatchHeader → Header
pa19_header hdr = record {
  version = pa19;
  target_file_time = 0;
  file_type_set = pos 1;
  file_type = pos 1;
  flags = pos hdr.flags;
  target_size = pos hdr.new_file_size;
  hash_alg_id = pos 0;
  target_hash = [];
  pa31_extra = none;
}

unfoldable pub version_of : List ℕ → Result FormatVersion
version_of magic =
    if eq_bytes magic pa30_magic
    then ok pa30
    else if eq_bytes magic pa31_magic
    then ok pa31
    else err (bad_magic pa30_magic magic)

-- PA31 has its header in a buffer of its own.
unfoldable pub header_reader : FormatVersion → BitReader → Result BitReader
header_reader pa31 outer = do (buf, _) ← read_buffer outer; new buf
header_reader pa30 outer = ok outer
header_reader pa19 outer = ok outer

-- The fields that PA31 adds.
unfoldable pub read_extra : FormatVersion → BitReader → Result (Option Pa31Extra)
read_extra pa31 r0 = do
  (f1, r1) ← read_i64 r0
  (f2, r2) ← read_i64 r1
  (f3, r3) ← read_i64 r2
  (extra_hash, r4) ← read_buffer r3
  if ltb 33 (length extra_hash)
      then err (hash_too_large (length extra_hash) 33)
      else ok (
          some (record {
            field1 = as_i32 f1;
            field2 = as_i32 f2;
            field3 = as_i32 f3;
            extra_hash = extra_hash;
          }))
read_extra pa30 r0 = ok none
read_extra pa19 r0 = ok none

unfoldable pub read_header : FormatVersion → ℕ → BitReader → Result Header
read_header version target_file_time r0 = do
  (file_type_set, r1) ← read_i64 r0
  (file_type, r2) ← read_i64 r1
  (flags, r3) ← read_i64 r2
  (target_size, r4) ← read_i64 r3
  (hash_alg_id, r5) ← read_i64 r4
  (target_hash, r6) ← read_buffer r5
  if ltb 33 (length target_hash)
      then err (hash_too_large (length target_hash) 33)
      else if ltb_ℤ target_size (pos 0)
      then err (malformed "negative target size")
      else (do
        extra ← read_extra version r6
        ok (record {
          version = version;
          target_file_time = target_file_time;
          file_type_set = file_type_set;
          file_type = file_type;
          flags = flags;
          target_size = target_size;
          hash_alg_id = as_i32 hash_alg_id;
          target_hash = target_hash;
          pa31_extra = extra;
        }))

unfoldable pub parse_header : List ℕ → Result Header
parse_header delta =
    if ltb (length delta) 12
    then err truncated
    else if eq_bytes (take 4 delta) Pa19.magic
    then (do hdr ← Pa19.decode delta; ok (pa19_header hdr))
    else (do
      version ← version_of (take 4 delta)
      outer ← new (drop 12 delta)
      reader ← header_reader version outer
      read_header version (le_num (take 8 (drop 4 delta))) reader)

-- The outer reader moved past the header.
unfoldable pub skip_header : FormatVersion → BitReader → Result BitReader
skip_header pa31 r0 = do (_, r1) ← read_buffer r0; ok r1
skip_header pa30 r0 = do
  (_, r1) ← read_i64 r0
  (_, r2) ← read_i64 r1
  (_, r3) ← read_i64 r2
  (_, r4) ← read_i64 r3
  (_, r5) ← read_i64 r4
  (_, r6) ← read_buffer r5
  ok r6
skip_header pa19 r0 = ok r0

-- The buffers behind a header; bit 8 of the file types marks a reverse delta.
unfoldable pub read_body : Header → BitReader → Result ParsedDelta
read_body header r0 =
    if bit_and (as_u64 header.file_type_set) 0x100 == 0
    then (do
      (preprocess, r1) ← read_buffer r0
      (patch_data, _) ← read_buffer r1
      ok (record { header = header; preprocess = preprocess; patch_data = patch_data }))
    else (do
      (reversal_data, _) ← read_buffer r0
      ok (record { header = header; preprocess = []; patch_data = reversal_data }))

unfoldable pub parse : List ℕ → Result ParsedDelta
parse delta =
    if ltb (length delta) 12
    then err truncated
    else if eq_bytes (take 4 delta) Pa19.magic
    then err (malformed "PA19 does not use ParsedDelta format")
    else (do
      version ← version_of (take 4 delta)
      outer ← new (drop 12 delta)
      behind ← skip_header version outer
      header ← parse_header delta
      read_body header behind)
