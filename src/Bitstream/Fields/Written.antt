-- ===== src/Bitstream/Fields/Written.antt =====
-- What a writer finishes, a reader reads back.
use msdelta.Base.{ℕ, ◌+◌, ◌-◌, ◌*◌, ◌^◌, ◌<◌, ◌≡◌, arith, List, length, All, map}
use msdelta.Errors.{ok}
use msdelta.Bitstream.Code.{gap, gap-lt, gap_fills}
use msdelta.Bitstream.Stream.{skip}
use msdelta.Bitstream.Reader.{BitReader, remaining}
use msdelta.Bitstream.Reader.Numbers.{Begins, remaining_lem}
use msdelta.Bitstream.Reader.Joined.{new-Holds}
use msdelta.Bitstream.Writer.Writes.{Writes-at}
use msdelta.Bitstream.Writer.Finish.{IsStream, new-Writes, finish-IsStream}
use msdelta.Bitstream.Fields.{Field, IsValid, shape, encode, decode}
use msdelta.Bitstream.Fields.Coding.{fields_code, write_fields-Writes, read_fields-ok}

pub encode-IsStream :
    (fs : List Field)
    → All IsValid fs
    → IsStream
        (encode fs)
        ((fields_code 3 fs).value * 8 + gap (3 + (fields_code 3 fs).width))
        (3 + (fields_code 3 fs).width + gap (3 + (fields_code 3 fs).width))
unfolding encode
encode-IsStream fs h =
    let at_three =
      Writes-at ((fields_code 3 fs).value * 8) (3 + (fields_code 3 fs).width)
        (write_fields-Writes fs h new-Writes) (omega arith) (omega arith) in
    finish-IsStream at_three (omega arith) (omega arith)

-- The fields that a writer puts into a file of less than 512 MiB are read back from it, and
-- no bit is left behind them.
pub decode-encode :
    (fs : List Field)
    → All IsValid fs
    → length (encode fs) < 2 ^ 29
    → (r : BitReader) × (decode (map shape fs) (encode fs) ≡ ok (fs, r)) × (remaining r ≡ 0)
unfolding decode skip
decode-encode fs h small =
    let n : ℕ = (fields_code 3 fs).width in
    let g : ℕ = gap (3 + n) in
    let whole = encode-IsStream fs h in
    let (r, e, start) =
      new-Holds (encode fs) g whole (gap-lt (3 + n)) (omega arith)
        (omega (arith, whole.count_is, small)) in
    let begins : Begins
        (record { value = (fields_code 3 fs).value; count = 3 + n + g - 3; padding = g })
        (fields_code 3 fs) =
      record { rest = 0; value_is = omega arith; room = omega arith } in
    let (r', e', left) = read_fields-ok fs 3 start h (omega (arith, gap_fills (3 + n))) begins in
    (r', rw (e, e'), omega (arith, remaining_lem left))
