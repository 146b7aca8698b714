-- ===== src/Pa19/Layout.antt =====
-- src/pa19/header.rs: a header laid out field by field, and where the compressed data behind it
-- begins.
use msdelta.Base.{
  ℕ, ◌+◌, ◌*◌, ◌^◌, ◌≤◌, ◌<◌, ◌≡◌, refl, sym, ap, arith, true, false, inl, inr, List, [], ◌++◌,
  length, length-append, drop, drop-append_left, if◌then◌else◌, le→ltb, Bool-cases,
}
use msdelta.Base.Bytes.{le_bytes, length-le_bytes, le_num}
use msdelta.Errors.{ok}
use msdelta.Pa19.{
  PatchHeader, has_flag, u32_le, window_size, interleave, decode, data_offset, header_size, magic,
}

-- The fields that every header has, and the bytes behind them.
unfoldable front : PatchHeader → List ℕ → List ℕ
front hdr rest =
    magic
    ++ (le_bytes 4 hdr.flags
        ++ (le_bytes 4 hdr.old_file_size
            ++ (le_bytes 4 hdr.old_file_crc
                ++ (le_bytes 4 hdr.new_file_size ++ (le_bytes 4 hdr.new_file_crc ++ rest)))))

-- The fields that flags announce: the window's exponent; the count of the interleave entries, with
-- the entries themselves, 12 bytes each.
unfoldable pub extension : PatchHeader → ℕ → List ℕ → List ℕ
extension hdr exponent entries =
    (if has_flag hdr.flags 4 then le_bytes 4 exponent else [])
    ++ (if has_flag hdr.flags 8 then le_bytes 4 hdr.interleave_count ++ entries else [])

unfoldable pub header_bytes : PatchHeader → ℕ → List ℕ → List ℕ
unfolding front extension
header_bytes hdr exponent entries = front hdr (extension hdr exponent entries)

-- A header that those bytes can hold. The count of the entries is read behind the exponent, so it
-- has the exponent's flag.
pub record IsLaidOut (hdr : PatchHeader) (exponent : ℕ) (entries : List ℕ) : Type 0 where
  pub flags_fit : hdr.flags < 2 ^ 32
  pub old_size_fit : hdr.old_file_size < 2 ^ 32
  pub old_crc_fit : hdr.old_file_crc < 2 ^ 32
  pub new_size_fit : hdr.new_file_size < 2 ^ 32
  pub new_crc_fit : hdr.new_file_crc < 2 ^ 32
  pub count_fit : hdr.interleave_count < 2 ^ 32
  pub exponent_fit : exponent ≤ 31
  pub window_is : hdr.lzx_window_size ≡ (if has_flag hdr.flags 4 then 2 ^ exponent else 0x2_0000)
  pub no_count : has_flag hdr.flags 8 ≡ false → hdr.interleave_count ≡ 0
  pub whole_entries : length entries ≡ hdr.interleave_count * 12
  pub ordered : has_flag hdr.flags 8 ≡ true → has_flag hdr.flags 4 ≡ true

word_back : (v : ℕ) → v < 2 ^ 32 → le_num (le_bytes 4 v) ≡ v
unfolding le_num le_bytes
word_back v h = omega (arith, h)

decode-ok :
    (patch : List ℕ) (hdr : PatchHeader)
    → 28 ≤ length patch
    → u32_le patch 4 ≡ hdr.flags
    → u32_le patch 8 ≡ hdr.old_file_size
    → u32_le patch 12 ≡ hdr.old_file_crc
    → u32_le patch 16 ≡ hdr.new_file_size
    → u32_le patch 20 ≡ hdr.new_file_crc
    → window_size patch hdr.flags ≡ ok hdr.lzx_window_size
    → interleave patch hdr.flags ≡ ok hdr.interleave_count
    → decode patch ≡ ok hdr
unfolding decode
decode-ok patch hdr long e4 e8 e12 e16 e20 window count =
    rw (le→ltb long, e4, window, count, e8, e12, e16, e20)

module _ (hdr : PatchHeader) (rest : List ℕ) where
  length-front : length (front hdr rest) ≡ 24 + length rest
  unfolding front le_bytes
  length-front = omega arith

  front-flags : hdr.flags < 2 ^ 32 → u32_le (front hdr rest) 4 ≡ hdr.flags
  unfolding front u32_le le_bytes
  front-flags h = word_back hdr.flags h

  front-old_size : hdr.old_file_size < 2 ^ 32 → u32_le (front hdr rest) 8 ≡ hdr.old_file_size
  unfolding front u32_le le_bytes
  front-old_size h = word_back hdr.old_file_size h

  front-old_crc : hdr.old_file_crc < 2 ^ 32 → u32_le (front hdr rest) 12 ≡ hdr.old_file_crc
  unfolding front u32_le le_bytes
  front-old_crc h = word_back hdr.old_file_crc h

  front-new_size : hdr.new_file_size < 2 ^ 32 → u32_le (front hdr rest) 16 ≡ hdr.new_file_size
  unfolding front u32_le le_bytes
  front-new_size h = word_back hdr.new_file_size h

  front-new_crc : hdr.new_file_crc < 2 ^ 32 → u32_le (front hdr rest) 20 ≡ hdr.new_file_crc
  unfolding front u32_le le_bytes
  front-new_crc h = word_back hdr.new_file_crc h

  -- The two words behind them, where there are some.
  front-exponent : (x : ℕ) → x < 2 ^ 32 → u32_le (front hdr (le_bytes 4 x ++ rest)) 24 ≡ x
  unfolding front u32_le le_bytes
  front-exponent x h = word_back x h

  front-count :
      (x n : ℕ) → n < 2 ^ 32 → u32_le (front hdr (le_bytes 4 x ++ (le_bytes 4 n ++ rest))) 28 ≡ n
  unfolding front u32_le le_bytes
  front-count x n h = word_back n h

-- What is read behind the fields that every header has.
record Extends (hdr : PatchHeader) (exponent : ℕ) (entries payload : List ℕ) : Type 0 where
  window :
      window_size (front hdr (extension hdr exponent entries ++ payload)) hdr.flags
      ≡ ok hdr.lzx_window_size
  count :
      interleave (front hdr (extension hdr exponent entries ++ payload)) hdr.flags
      ≡ ok hdr.interleave_count
  offset : data_offset hdr ≡ 24 + length (extension hdr exponent entries)

module _ (hdr : PatchHeader) (exponent : ℕ) (entries payload : List ℕ) where
  both_words :
      has_flag hdr.flags 4 ≡ true
      → has_flag hdr.flags 8 ≡ true
      → extension hdr exponent entries ++ payload
        ≡ le_bytes 4 exponent ++ (le_bytes 4 hdr.interleave_count ++ (entries ++ payload))
  unfolding extension le_bytes
  both_words four eight = rw (four, eight)

  one_word :
      has_flag hdr.flags 4 ≡ true
      → has_flag hdr.flags 8 ≡ false
      → extension hdr exponent entries ++ payload ≡ le_bytes 4 exponent ++ payload
  unfolding extension le_bytes
  one_word four eight = rw (four, eight)

  window_size-front :
      (rest : List ℕ)
      → has_flag hdr.flags 4 ≡ true
      → IsLaidOut hdr exponent entries
      → 32 ≤ length (front hdr (le_bytes 4 exponent ++ rest))
      → window_size (front hdr (le_bytes 4 exponent ++ rest)) hdr.flags ≡ ok hdr.lzx_window_size
  unfolding window_size
  window_size-front rest four laid long =
      let is : hdr.lzx_window_size ≡ 2 ^ exponent = rw four at laid.window_is in
      let fits = laid.exponent_fit in
      rw (four, le→ltb long, front-exponent hdr rest exponent (omega (arith, fits)), le→ltb fits)
        (ap ok (sym is))

  Extends-both :
      IsLaidOut hdr exponent entries
      → has_flag hdr.flags 4 ≡ true
      → has_flag hdr.flags 8 ≡ true
      → 36 ≤ length (front hdr (extension hdr exponent entries ++ payload))
      → Extends hdr exponent entries payload
  unfolding interleave data_offset
  Extends-both laid four eight long =
      let n : ℕ = hdr.interleave_count in
      let long' = rw (both_words four eight) at long in
      record {
        window = rw (both_words four eight) (window_size-front _ four laid (omega (arith, long')));
        count =
            rw (both_words four eight, eight, le→ltb long')
              (ap ok (front-count hdr (entries ++ payload) exponent n laid.count_fit));
        offset =
            unfold extension in
            rw (four, eight)
              (omega (
                arith,
                laid.whole_entries,
                length-append (le_bytes 4 exponent) (le_bytes 4 n ++ entries),
                length-append (le_bytes 4 n) entries,
                length-le_bytes 4 exponent,
                length-le_bytes 4 n,
              ));
      }

  Extends-window :
      IsLaidOut hdr exponent entries
      → has_flag hdr.flags 4 ≡ true
      → has_flag hdr.flags 8 ≡ false
      → 36 ≤ length (front hdr (extension hdr exponent entries ++ payload))
      → Extends hdr exponent entries payload
  unfolding interleave data_offset
  Extends-window laid four eight long =
      let long' = rw (one_word four eight) at long in
      record {
        window = rw (one_word four eight) (window_size-front _ four laid (omega (arith, long')));
        count = rw eight (ap ok (sym (laid.no_count eight)));
        offset =
            unfold extension in
            rw (four, eight)
              (omega (arith, length-append (le_bytes 4 exponent) [], length-le_bytes 4 exponent));
      }

  Extends-none :
      IsLaidOut hdr exponent entries
      → has_flag hdr.flags 4 ≡ false
      → has_flag hdr.flags 8 ≡ false
      → Extends hdr exponent entries payload
  unfolding window_size interleave data_offset
  Extends-none laid four eight =
      let is : hdr.lzx_window_size ≡ 0x2_0000 = rw four at laid.window_is in
      record {
        window = rw four (ap ok (sym is));
        count = rw eight (ap ok (sym (laid.no_count eight)));
        offset = unfold extension in rw (four, eight) (omega arith);
      }

  laid-Extends :
      IsLaidOut hdr exponent entries
      → 36 ≤ length (front hdr (extension hdr exponent entries ++ payload))
      → Extends hdr exponent entries payload
  laid-Extends laid long = elim (Bool-cases (has_flag hdr.flags 4)) [
    | inl four ↦ elim (Bool-cases (has_flag hdr.flags 8)) [
      | inl eight ↦ Extends-both laid four eight long
      | inr none_ ↦ Extends-window laid four none_ long
    ]
    | inr none4 ↦ elim (Bool-cases (has_flag hdr.flags 8)) [
      | inl eight ↦ let four = laid.ordered eight in cc
      | inr none8 ↦ Extends-none laid none4 none8
    ]
  ]

  header_whole :
      header_bytes hdr exponent entries ++ payload
      ≡ front hdr (extension hdr exponent entries ++ payload)
  unfolding header_bytes front le_bytes
  header_whole = refl

  read_laid_out :
      IsLaidOut hdr exponent entries
      → 36 ≤ length (front hdr (extension hdr exponent entries ++ payload))
      → decode (front hdr (extension hdr exponent entries ++ payload)) ≡ ok hdr
  read_laid_out laid long =
      let tail : List ℕ = extension hdr exponent entries ++ payload in
      let more = laid-Extends laid long in
      decode-ok (front hdr tail) hdr (omega (arith, long)) (front-flags hdr tail laid.flags_fit)
        (front-old_size hdr tail laid.old_size_fit) (front-old_crc hdr tail laid.old_crc_fit)
        (front-new_size hdr tail laid.new_size_fit) (front-new_crc hdr tail laid.new_crc_fit)
        more.window more.count

  size_laid_out :
      IsLaidOut hdr exponent entries
      → 36 ≤ length (front hdr (extension hdr exponent entries ++ payload))
      → header_size (front hdr (extension hdr exponent entries ++ payload))
        ≡ ok (length (header_bytes hdr exponent entries))
  unfolding header_size header_bytes
  size_laid_out laid long =
      let head : List ℕ = extension hdr exponent entries in
      let size : data_offset hdr ≡ length (front hdr head) =
        omega (arith, (laid-Extends laid long).offset, length-front hdr head) in
      let inside : length (front hdr head) ≤ length (front hdr (head ++ payload)) = omega (
        arith,
        length-front hdr head,
        length-front hdr (head ++ payload),
        length-append head payload,
      ) in
      rw (read_laid_out laid long, size, le→ltb inside)

  -- A header that is laid out field by field, in front of a payload, is read back, and `header_size`
  -- is its length, so that the compressed data is the payload: where the two are 36 bytes at least,
  -- the words fit 32 bits, the exponent is at most 31, and interleave entries come with an exponent.
  pub header_size-laid_out :
      IsLaidOut hdr exponent entries
      → 36 ≤ length (header_bytes hdr exponent entries ++ payload)
      → (decode (header_bytes hdr exponent entries ++ payload) ≡ ok hdr)
        × (header_size (header_bytes hdr exponent entries ++ payload)
            ≡ ok (length (header_bytes hdr exponent entries)))
        × (drop
              (length (header_bytes hdr exponent entries))
              (header_bytes hdr exponent entries ++ payload)
            ≡ payload)
  header_size-laid_out laid long =
      let long' = rw header_whole at long in
      (
        rw header_whole (read_laid_out laid long'),
        rw header_whole (size_laid_out laid long'),
        drop-append_left (length (header_bytes hdr exponent entries)) _ payload refl,
      )
