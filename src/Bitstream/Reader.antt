-- ===== src/Bitstream/Reader.antt =====
-- src/bitstream/mod.rs: `BitReader`. A method takes the reader and returns the new one; on an
-- error no caller looks at the reader again, so an error carries none.
pub mod Holds
pub mod Reads
pub mod Numbers
pub mod Buffers
pub mod Joined
use msdelta.Base.{
  ℕ, zero, suc, ◌+◌, ◌-◌, ◌*◌, ◌/◌, ◌%◌, min, bit_and, bit_or, ◌&&◌, List, [], ◌∷◌, ◌++◌, length,
  take, drop, get_or, ltb, leb, ◌==◌, if◌then◌else◌,
}
use msdelta.Base.Bytes.{le_num}
use msdelta.Base.Int.{ℤ, pos, pos_part, ltb_ℤ, as_i64}
use msdelta.Errors.{truncated, bitstream_exhausted, invalid_var_int, malformed}
use msdelta.Errors.{Result, ok, err, ◌>>=◌}
use msdelta.Bitstream.Words.{u32, shl64, shr64, mask64, trailing_zeros}

pub record BitReader : Type 0 where
  pub bytes : List ℕ
  pub pos : ℕ
  pub accum : ℕ
  pub bits : ℕ
  pub padding : ℕ

unfoldable pub remaining : BitReader → ℕ
remaining r =
    let unloaded = u32 (u32 (length r.bytes - r.pos) * 8) in u32 (r.bits + unloaded) - r.padding

unfoldable pub buffered : BitReader → ℕ
buffered r = r.bits

-- The branch of `refill` that loads eight bytes at once.
unfoldable pub refill_word : BitReader → BitReader
refill_word r =
    let word = le_num (take 8 (drop r.pos r.bytes)) in
    let loaded = 64 - r.bits in
    let byte_advance = loaded / 8 in
    record r {
      accum = bit_or r.accum (shl64 word r.bits);
      pos = r.pos + byte_advance;
      bits = r.bits + byte_advance * 8;
    }

-- The loop that loads single bytes; each round takes one, so the bytes left are fuel enough.
unfoldable pub refill_bytes : ℕ → BitReader → BitReader
refill_bytes zero r = r
refill_bytes (suc fuel) r =
    let next = record r {
      accum = bit_or r.accum (shl64 (get_or r.bytes r.pos 0) r.bits);
      pos = r.pos + 1;
      bits = r.bits + 8;
    } in
    let rest = refill_bytes fuel next in
    if leb r.bits 56 && ltb r.pos (length r.bytes) then rest else r

-- The first statement of `refill`.
unfoldable pub clear_stale : BitReader → BitReader
clear_stale r = if r.bits == 0 then record r { accum = 0 } else r

-- The rest of it.
unfoldable pub refill_cleared : BitReader → BitReader
refill_cleared r =
    if leb (r.pos + 8) (length r.bytes)
    then refill_word r
    else refill_bytes (length r.bytes - r.pos) r

unfoldable pub refill : BitReader → BitReader
refill r = refill_cleared (clear_stale r)

unfoldable pub peek : ℕ → BitReader → ℕ
peek n r = if n == 0 then 0 else bit_and r.accum (mask64 n)

unfoldable pub consume_unchecked : ℕ → BitReader → BitReader
consume_unchecked n r = record r { accum = shr64 r.accum n; bits = r.bits - n }

unfoldable pub ensure_bits : ℕ → BitReader → Result BitReader
ensure_bits n r =
    if ltb r.bits n
    then (let r' = refill r in if ltb r'.bits n then err (bitstream_exhausted n r'.bits) else ok r')
    else ok r

unfoldable pub consume_bits : ℕ → BitReader → Result BitReader
consume_bits n r = do r' ← ensure_bits n r; ok (consume_unchecked n r')

unfoldable pub new : List ℕ → Result BitReader
new [] = err truncated
new (b ∷ bs) =
    let padding = bit_and b 7 in
    let reader : BitReader = record {
      bytes = b ∷ bs;
      pos = 0;
      accum = 0;
      bits = 0;
      padding = padding;
    } in
    if ltb (length (b ∷ bs) * 8) (3 + padding)
    then err truncated
    else ok (consume_unchecked 3 (refill reader))

-- A read of at most 56 bits.
unfoldable pub read_narrow : ℕ → BitReader → Result (ℕ × BitReader)
read_narrow n r = do r' ← ensure_bits n r; ok (bit_and r'.accum (mask64 n), consume_unchecked n r')

-- A wider one, in two parts.
unfoldable pub read_wide : ℕ → BitReader → Result (ℕ × BitReader)
read_wide n r = do
  r1 ← ensure_bits 32 r
  let low = bit_and r1.accum 0xffff_ffff
  let high_bits = n - 32
  r2 ← ensure_bits high_bits (consume_unchecked 32 r1)
  let high = bit_and r2.accum (mask64 high_bits)
  ok (bit_or low (shl64 high 32), consume_unchecked high_bits r2)

unfoldable pub read_bits : ℕ → BitReader → Result (ℕ × BitReader)
read_bits n r = if n == 0 then ok (0, r) else if leb n 56 then read_narrow n r else read_wide n r

unfoldable pub read_i64_wide : ℕ → BitReader → Result (ℤ × BitReader)
read_i64_wide nibbles r = do
  let prefix_len = nibbles + 1
  r1 ← ensure_bits prefix_len r
  let r2 = consume_unchecked prefix_len r1
  let value_bits = (nibbles + 1) * 4
  if leb value_bits 32 then (do (v, r3) ← read_bits value_bits r2; ok (as_i64 v, r3)) else (do
    (low, r3) ← read_bits 32 r2
    (high, r4) ← read_bits (value_bits - 32) r3
    ok (as_i64 (bit_or (shl64 high 32) low), r4))

-- The end of `read_i64`, where the whole encoding fits the accumulator.
unfoldable pub read_i64_narrow : ℕ → BitReader → Result (ℤ × BitReader)
read_i64_narrow nibbles r = do
  let prefix_len = nibbles + 1
  let value_bits = (nibbles + 1) * 4
  r1 ← ensure_bits (prefix_len + value_bits) r
  let r2 = consume_unchecked prefix_len r1
  let mask = if value_bits == 64 then 0xffff_ffff_ffff_ffff else mask64 value_bits
  let val = bit_and r2.accum mask
  ok (as_i64 val, consume_unchecked value_bits r2)

-- `read_i64` behind its search for the prefix's end.
unfoldable pub read_i64_at : ℕ → BitReader → Result (ℤ × BitReader)
read_i64_at nibbles r =
    let total = nibbles + 1 + (nibbles + 1) * 4 in
    if nibbles == 16
    then err invalid_var_int
    else if ltb 56 total
    then read_i64_wide nibbles r
    else read_i64_narrow nibbles r

unfoldable pub read_i64 : BitReader → Result (ℤ × BitReader)
read_i64 r = do
  let want = min 17 (remaining r)
  r1 ← ensure_bits want r
  let sentinel = bit_or r1.accum 0x1_0000
  read_i64_at (trailing_zeros 64 sentinel) r1

-- `read_u32_number` behind its search for the prefix's end.
unfoldable pub read_number_at : ℕ → BitReader → Result (ℕ × BitReader)
read_number_at nibbles r =
    let prefix_len = nibbles + 1 in
    let value_bits = nibbles + 8 in
    if ltb 23 nibbles then err invalid_var_int else (do
      r1 ← ensure_bits (prefix_len + value_bits) r
      let r2 = consume_unchecked prefix_len r1
      let raw = u32 (bit_and r2.accum (mask64 value_bits))
      ok (bit_or (u32 (shl64 1 value_bits)) raw, consume_unchecked value_bits r2))

unfoldable pub read_u32_number : BitReader → Result (ℕ × BitReader)
read_u32_number r = do
  let want = min 32 (remaining r)
  r1 ← ensure_bits want r
  if bit_and r1.accum 0xffff_ffff == 0
      then err invalid_var_int
      else read_number_at (trailing_zeros 32 (u32 r1.accum)) r1

unfoldable pub align_to_byte : BitReader → BitReader
align_to_byte r =
    let discard = r.bits % 8 in if ltb 0 discard then consume_unchecked discard r else r

-- The loop of `read_buffer` that empties the accumulator; `left` is the source's `remaining`,
-- which falls by one a round. The result is the bytes taken, what is left, and the reader.
unfoldable pub drain : ℕ → BitReader → List ℕ → List ℕ × ℕ × BitReader
drain zero r buf = (buf, 0, r)
drain (suc left) r buf =
    let rest = drain left (consume_unchecked 8 r) (buf ++ (bit_and r.accum 0xff ∷ [])) in
    if leb 8 r.bits then rest else (buf, suc left, r)

-- `read_buffer` behind the drain: the copy from the underlying bytes.
unfoldable pub copy_bulk : List ℕ × ℕ × BitReader → Result (List ℕ × BitReader)
copy_bulk (buf, left, r) =
    let available = length r.bytes - r.pos in
    let bulk = min left available in
    let buf' = buf ++ take bulk (drop r.pos r.bytes) in
    let r' = record r { pos = r.pos + bulk } in
    if ltb 0 (left - bulk)
    then err (bitstream_exhausted (u32 ((left - bulk) * 8)) 0)
    else ok (buf', r')

-- `read_buffer` behind the check of the sign, for a size that is not negative.
unfoldable pub read_sized : ℕ → BitReader → Result (List ℕ × BitReader)
read_sized size r =
    let available = remaining r / 8 + r.bits / 8 in
    let a = align_to_byte r in
    if ltb (available + 8) size
    then err (malformed "buffer size exceeds available data")
    else if size == 0
    then ok ([], a)
    else copy_bulk (drain size a [])

unfoldable pub read_buffer : BitReader → Result (List ℕ × BitReader)
read_buffer r = do
  (size, r1) ← read_i64 r
  if ltb_ℤ size (pos 0)
      then err (malformed "negative buffer size")
      else read_sized (pos_part size) r1
