-- ===== src/Bitstream/Writer.antt =====
-- src/bitstream/mod.rs: `BitWriter`.
pub mod Wrote
pub mod Writes
pub mod Numbers
pub mod Buffers
pub mod Finish
use msdelta.Base.{
  ℕ, zero, suc, ◌+◌, ◌-◌, ◌*◌, ◌/◌, ◌%◌, bit_and, bit_or, List, [], ◌∷◌, ◌++◌, length, ltb, leb,
  ◌==◌, if◌then◌else◌,
}
use msdelta.Base.Bytes.{le_bytes}
use msdelta.Base.Int.{ℤ, as_u64, pos}
use msdelta.Bitstream.Words.{u32, shl64, shr64, mask64, leading_zeros}

pub record BitWriter : Type 0 where
  pub buf : List ℕ
  pub accum : ℕ
  pub bits : ℕ

-- `flush` writes out whole 32-bit words; the accumulator has at most two, which is the fuel.
unfoldable pub flush_words : ℕ → BitWriter → BitWriter
flush_words zero w = w
flush_words (suc fuel) w =
    let next = record w {
      buf = w.buf ++ le_bytes 4 (u32 w.accum);
      accum = shr64 w.accum 32;
      bits = w.bits - 32;
    } in
    let rest = flush_words fuel next in if leb 32 w.bits then rest else w

unfoldable pub flush : BitWriter → BitWriter
flush w = flush_words 2 w

-- The two branches of `write_bits`, before its last flush.
unfoldable pub write_over : ℕ → ℕ → BitWriter → BitWriter
write_over masked n w =
    let low_n = 64 - w.bits in
    let low_mask = if low_n == 64 then 0xffff_ffff_ffff_ffff else mask64 low_n in
    let filled = record w {
      accum = bit_or w.accum (shl64 (bit_and masked low_mask) w.bits);
      bits = 64;
    } in
    record (flush filled) { accum = shr64 masked low_n; bits = n - low_n }

unfoldable pub write_within : ℕ → ℕ → BitWriter → BitWriter
write_within masked n w = record w {
  accum = bit_or w.accum (shl64 masked w.bits);
  bits = w.bits + n;
}

unfoldable pub write_bits : ℕ → ℕ → BitWriter → BitWriter
write_bits val n w =
    let masked = if n == 64 then val else bit_and val (mask64 n) in
    if n == 0
    then w
    else if ltb 64 (w.bits + n)
    then flush (write_over masked n w)
    else flush (write_within masked n w)

unfoldable pub new : BitWriter
new = write_bits 0 3 (record { buf = []; accum = 0; bits = 0 })

-- `write_i64` where the upper half of the value is 0.
unfoldable pub low_nibbles : ℕ → ℕ
low_nibbles low =
    if low == 0 then 0 else (31 - leading_zeros 32 (bit_or (bit_or (low / 2) low) 1)) / 4

unfoldable pub write_low : ℕ → BitWriter → BitWriter
write_low low w =
    let nibbles = low_nibbles low in
    write_bits low ((nibbles + 1) * 4) (write_bits (shl64 1 nibbles) (nibbles + 1) w)

-- `write_i64` where it is not; `highest - highest % 4` is `highest & !3`.
unfoldable pub write_high : ℕ → ℕ → BitWriter → BitWriter
write_high v high w =
    let highest = 31 - leading_zeros 32 (bit_or (high / 2) high) in
    let nibbles = highest / 4 in
    let high_value_bits = highest - highest % 4 + 4 in
    write_bits high high_value_bits
      (write_bits (bit_and v 0xffff_ffff) 32 (write_bits (shl64 1 (nibbles + 8)) (nibbles + 9) w))

unfoldable pub write_u64 : ℕ → BitWriter → BitWriter
write_u64 v w =
    let high = u32 (shr64 v 32) in if high == 0 then write_low (u32 v) w else write_high v high w

unfoldable pub write_i64 : ℤ → BitWriter → BitWriter
write_i64 val w = write_u64 (as_u64 val) w

unfoldable pub write_u32_number : ℕ → BitWriter → BitWriter
write_u32_number val w =
    let bit_pos = 31 - leading_zeros 32 val in
    let nibbles = bit_pos - 8 in
    let value_bits = nibbles + 8 in
    write_bits (bit_and val (mask64 value_bits)) value_bits
      (write_bits (shl64 1 nibbles) (nibbles + 1) w)

-- `if pad > 0 { self.write_bits(0, pad) }`
unfoldable pub pad_by : ℕ → BitWriter → BitWriter
pad_by pad w = if ltb 0 pad then write_bits 0 pad w else w

unfoldable pub align_to_byte : BitWriter → BitWriter
align_to_byte w = pad_by ((8 - w.bits % 8) % 8) w

-- The loop of `write_buffer` over single bytes.
unfoldable pub write_bytes : List ℕ → BitWriter → BitWriter
write_bytes [] w = w
write_bytes (b ∷ bs) w = write_bytes bs (write_bits b 8 w)

unfoldable pub write_buffer : List ℕ → BitWriter → BitWriter
write_buffer bs w =
    let aligned = flush (align_to_byte (write_i64 (pos (length bs)) w)) in
    if aligned.bits == 0 then record aligned { buf = aligned.buf ++ bs } else write_bytes bs aligned

-- `flush_final` writes single bytes; the fuel is one more than the bits left.
unfoldable pub flush_final : ℕ → BitWriter → BitWriter
flush_final zero w = w
flush_final (suc fuel) w =
    let next = record w {
      buf = w.buf ++ (w.accum % 256) ∷ [];
      accum = shr64 w.accum 8;
      bits = w.bits - 8;
    } in
    let rest = flush_final fuel next in if ltb 0 w.bits then rest else w

-- `finish` writes the count of padding bits over the three bits that `new` put first.
unfoldable pub put_padding : ℕ → List ℕ → List ℕ
put_padding pad [] = []
put_padding pad (b ∷ bs) = bit_or (bit_and b 0xf8) (bit_and (pad % 256) 7) ∷ bs

unfoldable pub finish : BitWriter → List ℕ
finish w =
    let pad = (8 - w.bits % 8) % 8 in
    let padded = pad_by pad w in put_padding pad (flush_final (padded.bits + 1) padded).buf
