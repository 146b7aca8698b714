-- ===== src/Examples/Bits.antt =====
-- The bit stream at concrete inputs.
use msdelta.Base.{
  ℕ, ◌+◌, ◌*◌, ◌%◌, ◌^◌, ◌<◌, ◌≡◌, ◌⊎◌, refl, arith, List, [], ◌∷◌, length, All, map, ltb→lt,
}
use msdelta.Base.Int.{negsuc, as_i64, as_u64}
use msdelta.Base.Bytes.{le_num, le_bytes}
use msdelta.Errors.{ok}
use msdelta.Bitstream.Words.{shl64, shr64, mask64, leading_zeros}
use msdelta.Bitstream.Code.{
  join, prefixed, groups_behind, nibbles_of, i64_code, gap, bytes_code, buffer_code,
}
use msdelta.Bitstream.Stream.{Stream, skip, take_bits}
use msdelta.Bitstream.Reader.{
  BitReader, remaining, refill, read_bits, read_i64, read_u32_number, read_buffer,
}
use msdelta.Bitstream.Reader.Holds.{Holds, IsFresh, refill-IsFresh}
use msdelta.Bitstream.Reader.Reads.{Matches, read_bits-Matches}
use msdelta.Bitstream.Reader.Numbers.{Begins, read_i64-ok, read_u32_number-ok}
use msdelta.Bitstream.Reader.Joined.{read_buffer-ok}
use msdelta.Bitstream.Writer
use msdelta.Bitstream.Writer.{
  BitWriter, write_bits, write_over, write_within, flush, flush_words, write_i64, write_u64,
  write_low, write_high, low_nibbles, write_u32_number, write_buffer, write_bytes, align_to_byte,
  pad_by, finish, put_padding, flush_final,
}
use msdelta.Bitstream.Writer.Writes.{Writes, write_bits-Writes}
use msdelta.Bitstream.Writer.Numbers.{write_i64-Writes}
use msdelta.Bitstream.Writer.Finish.{IsStream, new-Writes, finish-IsStream}
use msdelta.Bitstream.Fields.{
  Field, plain, signed, number, buffer, IsValid, shape, write_field, write_fields, encode, decode,
}
use msdelta.Bitstream.Fields.Written.{decode-encode}

-- A reader in front of two bytes, of which the last `padding` bits are padding.
abbrev fresh : ℕ → ℕ → ℕ → BitReader
fresh a b padding = record { bytes = a ∷ b ∷ []; pos = 0; accum = 0; bits = 0; padding = padding }

abbrev fresh_stream : ℕ → ℕ → ℕ → Stream
fresh_stream a b padding = record { value = a + 256 * b; count = 16; padding = padding }

fresh-Holds :
    (a b padding : ℕ) → a < 256 → b < 256 → Holds (fresh a b padding) (fresh_stream a b padding)
unfolding le_num
fresh-Holds a b padding ha hb = record {
  place = record {
    are_bytes = (ha, (hb, tt));
    in_range = omega arith;
    fits = omega arith;
    count_is = refl;
    small = omega arith;
    ahead = omega arith;
    padding_is = refl;
  };
  loads = λ more. absurd (omega (arith, more));
}

read_bits-Matches_example :
    Matches (read_bits 11 (fresh 0xb5 0x01 5)) (take_bits 11 (fresh_stream 0xb5 0x01 5))
read_bits-Matches_example =
    read_bits-Matches 11 (fresh-Holds 0xb5 0x01 5 (omega arith) (omega arith)) (omega arith)

refill-IsFresh_example :
    IsFresh (refill (fresh 0xb5 0x01 5)) (fresh_stream 0xb5 0x01 5)
    × ((56 < (refill (fresh 0xb5 0x01 5)).bits) ⊎ (16 ≡ (refill (fresh 0xb5 0x01 5)).bits))
refill-IsFresh_example =
    refill-IsFresh (fresh-Holds 0xb5 0x01 5 (omega arith) (omega arith)) (omega arith)

nine-Begins : Begins (fresh_stream 0x13 0 11) (prefixed 0 4 9)
unfolding prefixed
nine-Begins = record { rest = 0; value_is = omega arith; room = omega arith }

read_i64-ok_example :
    (r : BitReader) × (read_i64 (fresh 0x13 0 11) ≡ ok (as_i64 9, r))
    × Holds r (skip 5 (fresh_stream 0x13 0 11))
read_i64-ok_example =
    read_i64-ok 0 9 (fresh-Holds 0x13 0 11 (omega arith) (omega arith)) (omega arith) (omega arith)
      nine-Begins

small-Begins : Begins (fresh_stream 0x59 0 7) (prefixed 0 8 44)
unfolding prefixed
small-Begins = record { rest = 0; value_is = omega arith; room = omega arith }

read_u32_number-ok_example :
    (r : BitReader) × (read_u32_number (fresh 0x59 0 7) ≡ ok (300, r))
    × Holds r (skip 9 (fresh_stream 0x59 0 7))
read_u32_number-ok_example =
    read_u32_number-ok 0 44 (fresh-Holds 0x59 0 7 (omega arith) (omega arith)) (omega arith)
      (omega arith) small-Begins

byte-Begins : Begins (fresh_stream 3 7 0) (buffer_code 0 (7 ∷ []))
unfolding buffer_code join bytes_code i64_code prefixed nibbles_of groups_behind le_num gap
byte-Begins = record { rest = 0; value_is = refl; room = omega arith }

read_buffer-ok_example :
    (r : BitReader) × (read_buffer (fresh 3 7 0) ≡ ok (7 ∷ [], r))
    × Holds r (skip (buffer_code 0 (7 ∷ [])).width (fresh_stream 3 7 0))
read_buffer-ok_example =
    read_buffer-ok 0 (7 ∷ []) (fresh-Holds 3 7 0 (omega arith) (omega arith)) (omega arith, tt)
      (omega arith) refl byte-Begins

write_bits-Writes_example : Writes (write_bits 300 7 Writer.new) (0 + 300 % 2 ^ 7 * 2 ^ 3) (3 + 7)
write_bits-Writes_example = write_bits-Writes 300 7 new-Writes (omega arith) (omega arith)

write_i64-Writes_example :
    Writes
      (write_i64 (negsuc 4) Writer.new)
      (0 + (i64_code (as_u64 (negsuc 4))).value * 2 ^ 3)
      (3 + (i64_code (as_u64 (negsuc 4))).width)
write_i64-Writes_example = write_i64-Writes (negsuc 4) new-Writes

finish-IsStream_example : IsStream (finish Writer.new) (0 + gap 3) (3 + gap 3)
finish-IsStream_example = finish-IsStream new-Writes (omega arith) (omega arith)

-- A file with a field of each kind.
abbrev sample : List Field
sample = plain 5 7 ∷ signed (negsuc 4) ∷ number 300 ∷ buffer (7 ∷ 8 ∷ 9 ∷ []) ∷ plain 1 1 ∷ []

sample-IsValid : All IsValid sample
unfolding IsValid
sample-IsValid = (
  (omega arith, omega arith),
  (
    omega arith,
    (
      (omega arith, omega arith),
      (
        ((omega arith, (omega arith, (omega arith, tt))), omega arith),
        ((omega arith, omega arith), tt),
      ),
    ),
  ),
)

sample-short : length (encode sample) < 2 ^ 29
unfolding encode write_fields write_field Writer.new write_bits write_over write_within flush
    flush_words write_i64 write_u64 write_low write_high low_nibbles write_u32_number write_buffer
    write_bytes align_to_byte pad_by finish put_padding flush_final le_bytes shl64 shr64 mask64
    leading_zeros as_u64
sample-short = ltb→lt refl

decode-encode_example :
    (r : BitReader) × (decode (map shape sample) (encode sample) ≡ ok (sample, r))
    × (remaining r ≡ 0)
decode-encode_example = decode-encode sample sample-IsValid sample-short
