-- ===== src/Pa30/Delta.antt =====
-- src/pa30/encode.rs: the end of `CreateOptions::execute`, which writes the delta. What it
-- writes (the patch, the hash) is computed before and is taken as given.
use msdelta.Base.{ℕ, List, [], ◌++◌}
use msdelta.Base.Int.{ℤ, pos}
use msdelta.Base.Bytes.{le_bytes}
use msdelta.Bitstream.Writer.{BitWriter, new, write_i64, write_buffer, finish}
use msdelta.Pa30.Header.{FormatVersion, pa19, pa30, pa31, pa30_magic, pa31_magic}

-- The values in scope where the delta is written.
pub record Contents : Type 0 where
  pub file_type_set : ℤ
  pub file_type : ℤ
  pub flags : ℤ
  pub target_size : ℕ
  pub hash_alg : ℕ
  pub target_hash : List ℕ
  pub preprocess : List ℕ
  pub patch_data : List ℕ

unfoldable pub magic_of : FormatVersion → List ℕ
magic_of pa31 = pa31_magic
magic_of pa30 = pa30_magic
magic_of pa19 = pa30_magic

-- The fields that both versions write.
unfoldable pub write_header : Contents → BitWriter → BitWriter
write_header c w = write_buffer c.target_hash (
    write_i64 (pos c.hash_alg) (
      write_i64 (pos c.target_size)
        (write_i64 c.flags (write_i64 c.file_type (write_i64 c.file_type_set w)))))

unfoldable pub write_extra : BitWriter → BitWriter
write_extra w = write_buffer [] (write_i64 (pos 0) (write_i64 (pos 0) (write_i64 (pos 0) w)))

unfoldable pub write_outer : FormatVersion → Contents → BitWriter → BitWriter
write_outer pa31 c w = write_buffer (finish (write_extra (write_header c new))) w
write_outer pa30 c w = write_header c w
write_outer pa19 c w = write_header c w

unfoldable pub write_delta : FormatVersion → Contents → List ℕ
write_delta version c =
    let written =
      write_buffer c.patch_data (write_buffer c.preprocess (write_outer version c new)) in
    magic_of version ++ (le_bytes 8 0 ++ finish written)
