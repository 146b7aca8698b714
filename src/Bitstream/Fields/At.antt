-- ===== src/Bitstream/Fields/At.antt =====
-- A reader in front of a list of fields, and the single calls that read them.
use msdelta.Base.{ℕ, ◌+◌, ◌-◌, ◌*◌, ◌%◌, ◌^◌, ◌<◌, ◌≡◌, arith, List, ◌∷◌, length, All}
use msdelta.Base.Int.{ℤ, as_u64, as_u64-lt, as_i64-as_u64}
use msdelta.Errors.{ok}
use msdelta.Bitstream.Code.{Code, gap, gap-lt, gap_fills}
use msdelta.Bitstream.Stream.{Stream, skip, front}
use msdelta.Bitstream.Reader.{BitReader, new, read_bits, read_i64, read_u32_number, read_buffer}
use msdelta.Bitstream.Reader.Holds.{Holds}
use msdelta.Bitstream.Reader.Numbers.{Begins, low_part}
use msdelta.Bitstream.Reader.Joined.{
  new-Holds, Begins-first, Begins-next, read_word-ok, read_buffer-ok,
}
use msdelta.Bitstream.Fields.{Field, plain, signed, number, buffer, IsValid, encode}
use msdelta.Bitstream.Reader.Reads.{read_bits-ok}
use msdelta.Bitstream.Fields.Coding.{field_code, fields_code, field_code-lt, Reads, read_number-ok}
use msdelta.Bitstream.Fields.Written.{encode-IsStream}

-- The reader `r` is in front of the fields `fs`, all of them valid.
pub record At (r : BitReader) (fs : List Field) : Type 0 where
  pub stream : Stream
  pub bit : ℕ
  pub holds : Holds r stream
  pub valid : All IsValid fs
  pub at_bit : (bit + stream.count) % 8 ≡ 0
  pub begins : Begins stream (fields_code bit fs)

-- The start of a file.
pub new-At :
    (fs : List Field)
    → All IsValid fs
    → length (encode fs) < 2 ^ 29
    → (r : BitReader) × (new (encode fs) ≡ ok r) × At r fs
new-At fs h small =
    let n : ℕ = (fields_code 3 fs).width in
    let g : ℕ = gap (3 + n) in
    let whole = encode-IsStream fs h in
    let (r, e, start) =
      new-Holds (encode fs) g whole (gap-lt (3 + n)) (omega arith)
        (omega (arith, whole.count_is, small)) in
    (
      r,
      e,
      record {
        stream = record { value = (fields_code 3 fs).value; count = 3 + n + g - 3; padding = g };
        bit = 3;
        holds = start;
        valid = h;
        at_bit = omega (arith, gap_fills (3 + n));
        begins = record { rest = 0; value_is = omega arith; room = omega arith };
      },
    )

-- A reader behind the first field.
module _ {r : BitReader} {f : Field} {fs : List Field} (a : At r (f ∷ fs)) where
  abbrev pub code : Code
  code = field_code a.bit f

  pub first : Begins a.stream code
  unfolding fields_code
  first = Begins-first code (fields_code (a.bit + code.width) fs) a.begins

  pub behind : {r' : BitReader} → Holds r' (skip code.width a.stream) → At r' fs
  unfolding fields_code skip
  behind h = record {
    stream = skip code.width a.stream;
    bit = a.bit + code.width;
    holds = h;
    valid = a.valid.1;
    at_bit = omega (arith, a.at_bit, first.room);
    begins =
        Begins-next code (fields_code (a.bit + code.width) fs) a.begins
          (field_code-lt f a.bit a.valid.0);
  }

pub next_signed :
    {r : BitReader} {v : ℤ} {fs : List Field}
    → At r (signed v ∷ fs)
    → (r' : BitReader) × (read_i64 r ≡ ok (v, r')) × At r' fs
unfolding field_code IsValid
next_signed {r} {v} a =
    let (r', e, h) = read_word-ok (as_u64 v) a.holds (as_u64-lt v) (first a) in
    (r', rw (as_i64-as_u64 v a.valid.0) at e, behind a h)

pub next_buffer :
    {r : BitReader} {bs : List ℕ} {fs : List Field}
    → At r (buffer bs ∷ fs)
    → (r' : BitReader) × (read_buffer r ≡ ok (bs, r')) × At r' fs
unfolding field_code IsValid
next_buffer {r} {bs} a =
    let (r', e, h) = read_buffer-ok a.bit bs a.holds a.valid.0.0 a.valid.0.1 a.at_bit (first a) in
    (r', e, behind a h)

pub next_plain :
    {r : BitReader} {x k : ℕ} {fs : List Field}
    → At r (plain x k ∷ fs)
    → (r' : BitReader) × (read_bits k r ≡ ok (x, r')) × At r' fs
unfolding field_code IsValid
next_plain {r} {x} {k} a =
    let b = first a in
    let value : a.stream.value ≡ x + 2 ^ k * b.rest = omega (arith, b.value_is) in
    let whole : front k a.stream ≡ x = rw value (low_part x b.rest k a.valid.0.1) in
    let (r', e, h) = read_bits-ok k a.holds a.valid.0.0 (omega (arith, b.room)) in
    (r', rw whole at e, behind a h)

pub next_number :
    {r : BitReader} {v : ℕ} {fs : List Field}
    → At r (number v ∷ fs)
    → (r' : BitReader) × (read_u32_number r ≡ ok (v, r')) × At r' fs
unfolding field_code IsValid Reads
next_number {r} {v} a =
    let (r', e, h) = read_number-ok v a.holds a.valid.0.0 a.valid.0.1 (first a) in
    (r', e, behind a h)
