-- ===== src/Bitstream/Fields.antt =====
-- src/bitstream/mod.rs: a file as its formats write and read it, one field behind another.
pub mod Coding
pub mod Written
pub mod At
use msdelta.Base.{ℕ, ◌≤◌, ◌<◌, ◌^◌, List, [], ◌∷◌, length}
use msdelta.Base.Int.{ℤ, IsI64}
use msdelta.Base.Bytes.{AreBytes}
use msdelta.Errors.{Result, ok, ◌>>=◌}
use msdelta.Bitstream.Reader.{BitReader, read_bits, read_i64, read_u32_number, read_buffer}
use msdelta.Bitstream.Writer.{
  BitWriter, write_bits, write_i64, write_u32_number, write_buffer, finish,
}
use msdelta.Bitstream.Reader
use msdelta.Bitstream.Writer

-- What one call writes; `plain x k` is `k` bits.
pub data Field : Type 0 where
  plain : ℕ → ℕ → Field
  signed : ℤ → Field
  number : ℕ → Field
  buffer : List ℕ → Field

-- What a reader must know to read it.
pub data Shape : Type 0 where
  plain_shape : ℕ → Shape
  signed_shape number_shape buffer_shape : Shape

unfoldable pub shape : Field → Shape
shape (plain x k) = plain_shape k
shape (signed v) = signed_shape
shape (number v) = number_shape
shape (buffer bs) = buffer_shape

-- The values that each call takes.
unfoldable pub IsValid : Field → Type 0
IsValid (plain x k) = (k ≤ 64) × (x < 2 ^ k)
IsValid (signed v) = IsI64 v
IsValid (number v) = (256 ≤ v) × (v < 2 ^ 32)
IsValid (buffer bs) = AreBytes bs × (length bs < 2 ^ 63)

unfoldable pub write_field : Field → BitWriter → BitWriter
write_field (plain x k) w = write_bits x k w
write_field (signed v) w = write_i64 v w
write_field (number v) w = write_u32_number v w
write_field (buffer bs) w = write_buffer bs w

unfoldable pub write_fields : List Field → BitWriter → BitWriter
write_fields [] w = w
write_fields (f ∷ fs) w = write_fields fs (write_field f w)

-- One read, its result made a field.
unfoldable pub read_field : Shape → BitReader → Result (Field × BitReader)
read_field (plain_shape k) r = do (x, r') ← read_bits k r; ok (plain x k, r')
read_field signed_shape r = do (v, r') ← read_i64 r; ok (signed v, r')
read_field number_shape r = do (v, r') ← read_u32_number r; ok (number v, r')
read_field buffer_shape r = do (bs, r') ← read_buffer r; ok (buffer bs, r')

unfoldable pub read_fields : List Shape → BitReader → Result (List Field × BitReader)
read_fields [] r = ok ([], r)
read_fields (s ∷ ss) r = do (f, r1) ← read_field s r; (fs, r2) ← read_fields ss r1; ok (f ∷ fs, r2)

-- The bytes of a file that holds the fields.
unfoldable pub encode : List Field → List ℕ
encode fs = finish (write_fields fs Writer.new)

-- The fields of a file, with the reader behind them.
unfoldable pub decode : List Shape → List ℕ → Result (List Field × BitReader)
decode shapes bs = do r ← Reader.new bs; read_fields shapes r
