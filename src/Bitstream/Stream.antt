-- ===== src/Bitstream/Stream.antt =====
-- What a bit reader stands for, its buffering forgotten: `count` bits that can still be read,
-- lowest first, as one number; the last `padding` of them are padding.
use msdelta.Base.{
  ℕ, ◌-◌, ◌/◌, ◌%◌, ◌^◌, ◌≤◌, ◌<◌, ◌≡◌, le→leb, lt→leb, lt→ltb, le→ltb, ltb, leb, if◌then◌else◌,
}
use msdelta.Errors.{Result, ok, err, bitstream_exhausted}

pub record Stream : Type 0 where
  pub value : ℕ
  pub count : ℕ
  pub padding : ℕ

unfoldable pub skip : ℕ → Stream → Stream
skip k s = record s { value = s.value / 2 ^ k; count = s.count - k }

-- The next `k` bits.
abbrev pub front : ℕ → Stream → ℕ
front k s = s.value % 2 ^ k

-- What reading `n` bits promises: the next `n` bits of the stream, or the error that says how
-- many bits were asked for at once and how many there were. More than 56 bits are asked for in
-- two parts.
unfoldable pub take_bits : ℕ → Stream → Result (ℕ × Stream)
take_bits n s =
    if leb n s.count
    then ok (front n s, skip n s)
    else if leb n 56
    then err (bitstream_exhausted n s.count)
    else if ltb s.count 32
    then err (bitstream_exhausted 32 s.count)
    else err (bitstream_exhausted (n - 32) (s.count - 32))

pub take_bits-ok : (n : ℕ) (s : Stream) → n ≤ s.count → take_bits n s ≡ ok (front n s, skip n s)
unfolding take_bits
take_bits-ok n s h = rw (le→leb h)

pub take_bits_narrow :
    (n : ℕ) (s : Stream)
    → s.count < n
    → n ≤ 56
    → take_bits n s ≡ err (bitstream_exhausted n s.count)
unfolding take_bits
take_bits_narrow n s h k = rw (lt→leb h, le→leb k)

pub take_bits_low :
    (n : ℕ) (s : Stream)
    → s.count < n
    → 56 < n
    → s.count < 32
    → take_bits n s ≡ err (bitstream_exhausted 32 s.count)
unfolding take_bits
take_bits_low n s h k l = rw (lt→leb h, lt→leb k, lt→ltb l)

pub take_bits_high :
    (n : ℕ) (s : Stream)
    → s.count < n
    → 56 < n
    → 32 ≤ s.count
    → take_bits n s ≡ err (bitstream_exhausted (n - 32) (s.count - 32))
unfolding take_bits
take_bits_high n s h k l = rw (lt→leb h, lt→leb k, le→ltb l)
