-- ===== src/Bitstream/Writer/Buffers.antt =====
-- `align_to_byte`, `write_buffer` and `finish`.
use msdelta.Base.{
  ℕ, zero, suc, ◌+◌, ◌*◌, ◌%◌, ◌^◌, ◌≤◌, ◌<◌, ◌≡◌, inl, inr, refl, ap, arith, List, [], ◌∷◌, ◌++◌,
  length, length-append, All-append, eq_cases, eq→==, ne→==, lt→ltb, ◌==◌, if◌then◌else◌,
}
use msdelta.Base.Int.{pos, as_u64}
use msdelta.Base.Bytes.{AreBytes, IsByte, le_num, le_num-append}
use msdelta.Base.Bits.{two-pow-add}
use msdelta.Bitstream.Code.{Code, i64_code, gap, bytes_code, buffer_code}
use msdelta.Bitstream.Writer.{
  BitWriter, write_bits, flush, pad_by, align_to_byte, write_bytes, write_i64, write_buffer,
}
use mathlib.Core.Path.{subst}
use native.Mathlib.Nat.{zero-mod}
use msdelta.Bitstream.Writer.Wrote.{Wrote, accum-eq-zero}
use msdelta.Bitstream.Writer.Writes.{Writes, Writes-at, write_bits-Writes, flushed}
use msdelta.Bitstream.Writer.Numbers.{write_i64-Writes}

pub bits-mod : {w : BitWriter} {v n : ℕ} → Wrote w v n → w.bits % 8 ≡ n % 8
bits-mod h = omega (arith, h.count_is)

zeros-Writes :
    {w : BitWriter} {v n : ℕ} (k : ℕ) → Writes w v n → k ≤ 64 → Writes (write_bits 0 k w) v (n + k)
zeros-Writes {w} {v} {n} k h wide =
    Writes-at v (n + k) (write_bits-Writes 0 k h wide (omega arith))
      (rw (zero-mod (2 ^ k)) (omega arith)) refl

pub pad_by-Writes :
    {w : BitWriter} {v n : ℕ} (k : ℕ) → Writes w v n → k ≤ 64 → Writes (pad_by k w) v (n + k)
unfolding pad_by
pad_by-Writes {w} {v} {n} zero h wide = Writes-at v (n + 0) h refl (omega arith)
pad_by-Writes (suc k) h wide =
    rw (lt→ltb {a = 0} {b = suc k} (omega arith)) (zeros-Writes (suc k) h wide)

-- `align_to_byte` writes zeros up to the next byte.
pub align-Writes : {w : BitWriter} {v n : ℕ} → Writes w v n → Writes (align_to_byte w) v (n + gap n)
unfolding align_to_byte gap
align-Writes {w} {v} {n} h = rw (bits-mod h.wrote) (pad_by-Writes (gap n) h (omega arith))

write_bytes-Writes :
    (bs : List ℕ) {w : BitWriter} {v n : ℕ}
    → Writes w v n
    → AreBytes bs
    → Writes (write_bytes bs w) (v + le_num bs * 2 ^ n) (n + 8 * length bs)
unfolding write_bytes le_num
write_bytes-Writes [] h b = Writes-at _ _ h (omega arith) (omega arith)
write_bytes-Writes (x ∷ xs) {w} {v} {n} h b =
    let first = write_bits-Writes x 8 h (omega arith) (omega (arith, b.0)) in
    let byte : x % 2 ^ 8 ≡ x = omega (arith, b.0) in
    Writes-at _ _ (write_bytes-Writes xs first b.1)
      (rw byte (omega (arith, ap (λ (t : ℕ). le_num xs * t) (two-pow-add n 8)))) (omega arith)

-- Whole bytes put behind an empty accumulator.
extend-Writes :
    {w : BitWriter} {v n : ℕ} (bs : List ℕ)
    → Writes w v n
    → w.bits ≡ 0
    → AreBytes bs
    → Writes (record w { buf = w.buf ++ bs }) (v + le_num bs * 2 ^ n) (n + 8 * length bs)
extend-Writes {w} {v} {n} bs h e b = record {
  wrote = record {
    are_bytes = All-append IsByte w.buf bs h.wrote.are_bytes b;
    fits = h.wrote.fits;
    width = h.wrote.width;
    count_is = omega (arith, h.wrote.count_is, length-append w.buf bs);
    value_is = rw (accum-eq-zero h.wrote e) (
        omega (
          arith,
          h.wrote.value_is,
          le_num-append w.buf bs,
          none_,
          ap (λ (t : ℕ). le_num bs * 2 ^ t) at_end,
        ));
  };
  short = h.short;
}
  where
    none_ : w.accum * 2 ^ (8 * length w.buf) ≡ 0
    none_ = rw (accum-eq-zero h.wrote e) (omega arith)

    at_end : n ≡ 8 * length w.buf
    at_end = omega (arith, h.wrote.count_is, e)

-- `write_buffer` behind its length.
aligned_bytes :
    {w : BitWriter} {v n : ℕ} (bs : List ℕ)
    → Writes w v n
    → AreBytes bs
    → Writes
        (let a = flush (align_to_byte w) in
          if a.bits == 0 then record a { buf = a.buf ++ bs } else write_bytes bs a)
        (v + (bytes_code (gap n) bs).value * 2 ^ n)
        (n + (bytes_code (gap n) bs).width)
unfolding bytes_code
aligned_bytes {w} {v} {n} bs h b =
    let a = flushed (align-Writes h).wrote in
    let value : v + le_num bs * 2 ^ (n + gap n) ≡ v + le_num bs * 2 ^ gap n * 2 ^ n =
      omega (arith, ap (λ (t : ℕ). le_num bs * t) (two-pow-add n (gap n))) in
    elim (eq_cases (flush (align_to_byte w)).bits 0) [
      | inl e ↦ rw (eq→== e) (Writes-at _ _ (extend-Writes bs a e b) value (omega arith))
      | inr d ↦ rw (ne→== d) (Writes-at _ _ (write_bytes-Writes bs a b) value (omega arith))
    ]

joined :
    (v n : ℕ) (a b : Code)
    → v + a.value * 2 ^ n + b.value * 2 ^ (n + a.width)
      ≡ v + (a.value + b.value * 2 ^ a.width) * 2 ^ n
joined v n a b = omega (arith, ap (λ (t : ℕ). b.value * t) (two-pow-add n a.width))

-- `write_buffer` appends the encoding of its buffer.
pub write_buffer-Writes :
    {w : BitWriter} {v n : ℕ} (bs : List ℕ)
    → Writes w v n
    → AreBytes bs
    → length bs < 2 ^ 63
    → Writes
        (write_buffer bs w)
        (v + (buffer_code n bs).value * 2 ^ n)
        (n + (buffer_code n bs).width)
unfolding write_buffer buffer_code
write_buffer-Writes {w} {v} {n} bs h b short =
    let size : Code = i64_code (length bs) in
    let word : as_u64 (pos (length bs)) ≡ length bs = unfold as_u64 in omega arith in
    let first : Writes (write_i64 (pos (length bs)) w) (v + size.value * 2 ^ n) (n + size.width) =
      subst
        (λ (t : ℕ).
          Writes (write_i64 (pos (length bs)) w) (v + (i64_code t).value * 2 ^ n)
            (n + (i64_code t).width))
        word (write_i64-Writes (pos (length bs)) h) in
    let g : ℕ = gap (n + size.width) in
    Writes-at _ _ (aligned_bytes bs first b) (joined v n size (bytes_code g bs)) (omega arith)
