-- ===== src/Bitstream/Fields/Coding.antt =====
-- The bits of each field, and of a list of them.
use msdelta.Base.{
  ℕ, ◌+◌, ◌-◌, ◌*◌, ◌%◌, ◌^◌, ◌≤◌, ◌<◌, ◌≡◌, refl, ap, sym, ◌∙◌, arith, List, [], ◌∷◌, length, All,
  map,
}
use msdelta.Base.Bits.{two-pow-add, two-pow-pos, two-pow_mono, join-lt}
use msdelta.Base.Int.{as_u64, as_u64-lt, as_i64-as_u64}
use msdelta.Base.Bytes.{le_num, le_num-lt}
use msdelta.Errors.{Result, ok}
use msdelta.Bitstream.Code.{
  Code, join, prefixed, i64_code, number_code, bytes_code, buffer_code, gap,
}
use msdelta.Bitstream.Words.{leading_zeros}
use msdelta.Bitstream.Stream.{Stream, skip, front}
use msdelta.Bitstream.Reader.{BitReader, read_u32_number}
use msdelta.Bitstream.Reader.Holds.{Holds}
use msdelta.Bitstream.Reader.Numbers.{Begins, low_part, read_u32_number-ok}
use msdelta.Bitstream.Reader.Reads.{read_bits-ok, skip-skip, skip-zero}
use msdelta.Bitstream.Reader.Joined.{
  prefixed-lt, i64_code-lt, read_word-ok, read_buffer-ok, Begins-first, Begins-next,
}
use msdelta.Bitstream.Writer.{BitWriter}
use msdelta.Bitstream.Writer.Writes.{Writes, Writes-at, write_bits-Writes}
use msdelta.Bitstream.Writer.Numbers.{write_i64-Writes, write_u32_number-Writes, top_bit}
use msdelta.Bitstream.Writer.Buffers.{write_buffer-Writes}
use native.Mathlib.Nat.{mod-eq_of_lt}
use mathlib.Core.Path.{subst}
use msdelta.Bitstream.Fields.{
  Field, plain, signed, number, buffer, shape, IsValid, write_field, write_fields, read_field,
  read_fields,
}

-- A field's bits where it is written at bit `n`.
unfoldable pub field_code : ℕ → Field → Code
field_code n (plain x k) = record { value = x; width = k }
field_code n (signed v) = i64_code (as_u64 v)
field_code n (number v) = number_code v
field_code n (buffer bs) = buffer_code n bs

unfoldable pub fields_code : ℕ → List Field → Code
fields_code n [] = record { value = 0; width = 0 }
fields_code n (f ∷ fs) = let c = field_code n f in join c (fields_code (n + c.width) fs)

-- Each write appends the bits of its field.
pub write_field-Writes :
    (f : Field) {w : BitWriter} {v n : ℕ}
    → IsValid f
    → Writes w v n
    → Writes (write_field f w) (v + (field_code n f).value * 2 ^ n) (n + (field_code n f).width)
unfolding write_field field_code IsValid
write_field-Writes (plain x k) h w =
    let low : x % 2 ^ k ≡ x = mod-eq_of_lt h.1 in
    let word : x < 2 ^ 64 = omega (arith, h.1, two-pow_mono k 64 h.0) in
    rw low at (write_bits-Writes x k w h.0 word)
write_field-Writes (signed v) h w = write_i64-Writes v w
write_field-Writes (number v) h w = write_u32_number-Writes v w h.0 h.1
write_field-Writes (buffer bs) h w = write_buffer-Writes bs w h.0 h.1

pub write_fields-Writes :
    (fs : List Field) {w : BitWriter} {v n : ℕ}
    → All IsValid fs
    → Writes w v n
    → Writes
        (write_fields fs w)
        (v + (fields_code n fs).value * 2 ^ n)
        (n + (fields_code n fs).width)
unfolding write_fields fields_code join
write_fields-Writes [] h w = Writes-at _ _ w (omega arith) (omega arith)
write_fields-Writes (f ∷ fs) {v = v} {n = n} h w =
    let c : Code = field_code n f in
    let d : Code = fields_code (n + c.width) fs in
    Writes-at _ _ (write_fields-Writes fs h.1 (write_field-Writes f h.0 w))
      (omega (arith, ap (λ (t : ℕ). d.value * t) (two-pow-add n c.width))) (omega arith)

-- The bits of a field fit its width.
pub field_code-lt :
    (f : Field) (n : ℕ) → IsValid f → (field_code n f).value < 2 ^ (field_code n f).width
unfolding field_code IsValid
field_code-lt (plain x k) n h = h.1
field_code-lt (signed v) n h = i64_code-lt (as_u64 v) (as_u64-lt v)
field_code-lt (number v) n h =
    unfold number_code in
    let (_, _, lt) = top_bit v h.0 h.1 in
    let t : ℕ = 31 - leading_zeros 32 v in
    prefixed-lt (t - 8) t (v - 2 ^ t) (omega (arith, lt, two-pow-add t 1))
field_code-lt (buffer bs) n h =
    unfold buffer_code join bytes_code in
    let c : Code = i64_code (length bs) in
    let g : ℕ = gap (n + c.width) in
    join-lt c.value (le_num bs * 2 ^ g) c.width (g + 8 * length bs)
      (i64_code-lt (length bs) (omega (arith, h.1)))
      (omega (arith, join-lt 0 (le_num bs) g (8 * length bs) (two-pow-pos g) (le_num-lt bs h.0)))

-- What a read of the bits of `f` promises.
unfoldable pub Reads : {A : Type 0} → Result (A × BitReader) → A → Stream → ℕ → Type 0
Reads got a s width = (r' : BitReader) × (got ≡ ok (a, r')) × Holds r' (skip width s)

pub read_number-ok :
    {r : BitReader} {s : Stream} (v : ℕ)
    → Holds r s
    → 256 ≤ v
    → v < 2 ^ 32
    → Begins s (number_code v)
    → Reads (read_u32_number r) v s (number_code v).width
unfolding number_code Reads prefixed
read_number-ok {r} {s} v h lo hi b =
    let t : ℕ = 31 - leading_zeros 32 v in
    let k : ℕ = t - 8 in
    let (big, le, lt) = top_bit v lo hi in
    let width : t ≡ k + 8 = omega (arith, big) in
    let small : v - 2 ^ t < 2 ^ t = omega (arith, lt, two-pow-add t 1) in
    let (r', e, h') =
      read_u32_number-ok k (v - 2 ^ t) h (omega arith)
        (subst (λ (u : ℕ). v - 2 ^ t < 2 ^ u) width small)
        (subst (λ (u : ℕ). Begins s (prefixed k u (v - 2 ^ t))) width b) in
    let sum : 2 ^ (k + 8) + (v - 2 ^ t) ≡ v =
      subst (λ (u : ℕ). 2 ^ u + (v - 2 ^ t) ≡ v) width (omega (arith, le)) in
    (
      r',
      e ∙ ap (λ (x : ℕ). ok (x, r')) sum,
      subst (λ (u : ℕ). Holds r' (skip (k + 1 + u) s)) (sym width) h',
    )

-- Each read takes the bits of its field.
read_field-ok :
    {r : BitReader} {s : Stream} (f : Field) (n : ℕ)
    → Holds r s
    → IsValid f
    → (n + s.count) % 8 ≡ 0
    → Begins s (field_code n f)
    → Reads (read_field (shape f) r) f s (field_code n f).width
unfolding field_code IsValid read_field shape Reads
read_field-ok {r} {s} (plain x k) n h g at_bit b =
    let value : s.value ≡ x + 2 ^ k * b.rest = omega (arith, b.value_is) in
    let whole : front k s ≡ x = rw value (low_part x b.rest k g.1) in
    let (r', e, h') = read_bits-ok k h g.0 (omega (arith, b.room)) in (r', rw (e, whole), h')
read_field-ok (signed v) n h g at_bit b =
    let (r', e, h') = read_word-ok (as_u64 v) h (as_u64-lt v) b in
    (r', rw (e, as_i64-as_u64 v g), h')
read_field-ok (number v) n h g at_bit b =
    let (r', e, h') = read_number-ok v h g.0 g.1 b in (r', rw e, h')
read_field-ok (buffer bs) n h g at_bit b =
    let (r', e, h') = read_buffer-ok n bs h g.0 g.1 at_bit b in (r', rw e, h')

pub read_fields-ok :
    (fs : List Field) {r : BitReader} {s : Stream} (n : ℕ)
    → Holds r s
    → All IsValid fs
    → (n + s.count) % 8 ≡ 0
    → Begins s (fields_code n fs)
    → (r' : BitReader) × (read_fields (map shape fs) r ≡ ok (fs, r'))
      × Holds r' (skip (fields_code n fs).width s)
unfolding fields_code read_fields Reads join
read_fields-ok [] {r} {s} n h g at_bit b = (r, refl, subst (λ t. Holds r t) (sym (skip-zero s)) h)
read_fields-ok (f ∷ fs) {r} {s} n h g at_bit b =
    let c : Code = field_code n f in
    let d : Code = fields_code (n + c.width) fs in
    let first : Begins s c = Begins-first c d b in
    let next : Begins (skip c.width s) d = Begins-next c d b (field_code-lt f n g.0) in
    let (r1, e1, h1) = read_field-ok f n h g.0 at_bit first in
    let (r2, e2, h2) =
      read_fields-ok fs (n + c.width) h1 g.1 (unfold skip in omega (arith, first.room, at_bit))
        next in
    (
      r2,
      rw (e1, e2),
      subst (λ t. Holds r2 t) (skip-skip c.width d.width (c.width + d.width) s refl) h2,
    )
