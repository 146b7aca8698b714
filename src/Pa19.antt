-- ===== src/Pa19.antt =====
-- src/pa19/mod.rs and src/pa19/header.rs: the legacy PA19 format. The decoder of the `lzxd`
-- crate is a parameter.
pub mod Crc
pub mod E8
pub mod Kept
pub mod Layout
pub mod Size
use msdelta.Base.{
  ℕ, ◌+◌, ◌-◌, ◌*◌, ◌/◌, ◌%◌, ◌^◌, bit_and, Bool, Option, none, some, ◌||◌, not, List, [], ◌∷◌,
  length, take, drop, ltb, leb, ◌==◌, if◌then◌else◌,
}
use msdelta.Base.Bytes.{eq_bytes, le_num}
use msdelta.Errors.{truncated, malformed, pa19}
use msdelta.Errors.{Result, ok, err, ◌>>=◌}
use Crc.{crc32}
use E8.{e8_transform_decode}

-- b"PA19"
abbrev pub magic : List ℕ
magic = 0x50 ∷ 0x41 ∷ 0x31 ∷ 0x39 ∷ []

pub record PatchHeader : Type 0 where
  pub old_file_size : ℕ
  pub old_file_crc : ℕ
  pub new_file_size : ℕ
  pub new_file_crc : ℕ
  pub flags : ℕ
  pub lzx_window_size : ℕ
  pub interleave_count : ℕ

-- Its callers have checked that the four bytes are there.
unfoldable pub u32_le : List ℕ → ℕ → ℕ
u32_le bytes offset = le_num (take 4 (drop offset bytes))

-- `flags & 4 != 0`, `flags & 8 != 0` and `flags & 2 != 0`.
abbrev pub has_flag : ℕ → ℕ → Bool
has_flag flags bit = not (bit_and flags bit == 0)

unfoldable pub window_size : List ℕ → ℕ → Result ℕ
window_size patch flags =
    let exp = u32_le patch 24 in
    if has_flag flags 4
    then (if ltb (length patch) 32
        then err truncated
        else if ltb 31 exp
        then err (pa19 "invalid LZX window exponent" exp)
        else ok (2 ^ exp))
    else ok 0x2_0000

unfoldable pub interleave : List ℕ → ℕ → Result ℕ
interleave patch flags =
    if has_flag flags 8
    then (if ltb (length patch) 36 then err truncated else ok (u32_le patch 28))
    else ok 0

unfoldable pub decode : List ℕ → Result PatchHeader
decode patch = if ltb (length patch) 28 then err truncated else (do
  let flags = u32_le patch 4
  window ← window_size patch flags
  count ← interleave patch flags
  ok (record {
    old_file_size = u32_le patch 8;
    old_file_crc = u32_le patch 12;
    new_file_size = u32_le patch 16;
    new_file_crc = u32_le patch 20;
    flags = flags;
    lzx_window_size = window;
    interleave_count = count;
  }))

-- The offset that `header_size` adds up.
unfoldable pub data_offset : PatchHeader → ℕ
data_offset hdr =
    let window = if has_flag hdr.flags 4 then 24 + 4 else 24 in
    if has_flag hdr.flags 8 then window + 4 + hdr.interleave_count * 12 else window

unfoldable pub header_size : List ℕ → Result ℕ
header_size patch = do
  hdr ← decode patch
  let offset = data_offset hdr
  if ltb (length patch) offset then err truncated else ok offset

unfoldable pub is_pa19 : List ℕ → Bool
is_pa19 patch = not (ltb (length patch) 4 || not (eq_bytes (take 4 patch) magic))

unfoldable pub parse_header : List ℕ → Result PatchHeader
parse_header patch = if not (is_pa19 patch) then err (malformed "PA19: bad magic") else decode patch

-- What `lzxd` offers: a decoder with a window of so many KB takes the compressed bytes and the
-- size to produce; `none` stands for its errors.
abbrev pub Lzxd : Type 0
Lzxd = ℕ → List ℕ → ℕ → Option (List ℕ)

unfoldable pub lzxd_result : Option (List ℕ) → Result (List ℕ)
lzxd_result (some bytes) = ok bytes
lzxd_result none = err (pa19 "LZX decode" 0)

-- src/pa19/lzx.rs
unfoldable pub decompress_delta : Lzxd → List ℕ → ℕ → ℕ → Result (List ℕ)
decompress_delta lzxd [] target_size window_size =
    if target_size == 0 then ok [] else err (pa19 "empty LZX data for non-zero target" 0)
decompress_delta lzxd (b ∷ bs) target_size window_size =
    if window_size == 0x8000
    then lzxd_result (lzxd 32 (b ∷ bs) target_size)
    else if window_size == 0x1_0000
    then lzxd_result (lzxd 64 (b ∷ bs) target_size)
    else if window_size == 0x2_0000
    then lzxd_result (lzxd 128 (b ∷ bs) target_size)
    else err (pa19 "unsupported LZX window size" window_size)

-- `apply` behind its decoding: the transform and the check of the CRC.
unfoldable pub checked : PatchHeader → List ℕ → Result (List ℕ)
checked hdr plain =
    let new_file = if has_flag hdr.flags 2 then e8_transform_decode plain else plain in
    if crc32 new_file == hdr.new_file_crc then ok new_file else err (malformed "PA19: CRC mismatch")

unfoldable pub apply : Lzxd → List ℕ → List ℕ → Result (List ℕ)
apply lzxd old_file patch = if not (is_pa19 patch) then err (malformed "PA19: bad magic") else (do
  hdr ← decode patch
  if not (length old_file == hdr.old_file_size)
      then err (pa19 "old file size mismatch" (length old_file))
      else (do
        offset ← header_size patch
        plain ← decompress_delta lzxd (drop offset patch) hdr.new_file_size hdr.lzx_window_size
        checked hdr plain))
