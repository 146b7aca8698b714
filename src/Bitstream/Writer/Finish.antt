-- ===== src/Bitstream/Writer/Finish.antt =====
-- `new` and `finish`: the whole byte string that a writer makes.
use msdelta.Base.{
  ℕ, zero, suc, ◌+◌, ◌-◌, ◌*◌, ◌/◌, ◌%◌, ◌^◌, ◌≤◌, ◌<◌, ◌≡◌, inl, inr, refl, ap, arith, bit_and,
  bit_or, List, [], ◌∷◌, ◌++◌, length, length-append, All-append, eq_cases, lt→ltb, le→ltb,
}
use msdelta.Base.Bytes.{AreBytes, IsByte, le_num, le_num-append, byte_pow}
use msdelta.Base.Bits.{div_two-pow-lt}
use msdelta.Base.Table.{agree→eq}
use msdelta.Bitstream.Words.{shr64}
use msdelta.Bitstream.Words.Laws.{shr64_lem}
use msdelta.Bitstream.Code.{gap, gap-lt, gap_fills}
use msdelta.Bitstream.Writer.{BitWriter, new, pad_by, flush_final, put_padding, finish}
use msdelta.Bitstream.Writer.Wrote.{Wrote, accum-eq-zero}
use msdelta.Bitstream.Writer.Writes.{Writes, write_bits-Writes}
use msdelta.Bitstream.Writer.Buffers.{bits-mod, pad_by-Writes}
use native.Mathlib.Nat.{div-add-mod}

-- `new` has written three zeros.
pub new-Writes : Writes new 0 3
unfolding new le_num
new-Writes = write_bits-Writes 0 3 empty (omega arith) (omega arith)
  where
    empty : Writes (record { buf = []; accum = 0; bits = 0 }) 0 0
    empty = record {
      wrote = record {
        are_bytes = tt;
        fits = omega arith;
        width = omega arith;
        count_is = refl;
        value_is = refl;
      };
      short = omega arith;
    }

split_byte : (x p : ℕ) → x * p ≡ x % 256 * p + x / 256 * (256 * p)
split_byte x p = omega (arith, ap (λ (t : ℕ). t * p) (div-add-mod x 256))

-- Writing one byte out of the accumulator.
module _ {w : BitWriter} {v n : ℕ} (h : Wrote w v n) (full : 8 ≤ w.bits) where
  abbrev byte_out : BitWriter
  byte_out = record w {
    buf = w.buf ++ (w.accum % 256) ∷ [];
    accum = shr64 w.accum 8;
    bits = w.bits - 8;
  }

  byte_out-value : v ≡ le_num byte_out.buf + byte_out.accum * 2 ^ (8 * length byte_out.buf)
  unfolding le_num
  byte_out-value =
      let p : ℕ = 2 ^ (8 * length w.buf) in
      let len : length byte_out.buf ≡ suc (length w.buf) =
        omega (arith, length-append w.buf ((w.accum % 256) ∷ [])) in
      let wide : 2 ^ (8 * length byte_out.buf) ≡ 256 * p = rw len (byte_pow (length w.buf)) in
      rw (wide, le_num-append, shr64_lem w.accum 8 (omega arith))
        (omega (arith, h.value_is, split_byte w.accum p))

  byte_out-Wrote : Wrote byte_out v n
  byte_out-Wrote = record {
    are_bytes = All-append IsByte w.buf _ h.are_bytes (omega arith, tt);
    fits = rw (shr64_lem w.accum 8 (omega arith)) (div_two-pow-lt w.accum 8 w.bits full h.fits);
    width = omega (arith, h.width);
    count_is = omega (arith, h.count_is, full, length-append w.buf ((w.accum % 256) ∷ []));
    value_is = byte_out-value;
  }

-- `flush_final` on whole bytes writes them all.
flush_final-Wrote :
    (fuel : ℕ) {w : BitWriter} {v n : ℕ}
    → Wrote w v n
    → w.bits % 8 ≡ 0
    → w.bits < fuel
    → Wrote (flush_final fuel w) v n × ((flush_final fuel w).bits ≡ 0)
unfolding flush_final
flush_final-Wrote zero h e lt = absurd (omega arith)
flush_final-Wrote (suc fuel) {w} h e lt = elim (eq_cases w.bits 0) [
  | inl done ↦ rw (le→ltb {a = 0} {b = w.bits} (omega arith)) (h, done)
  | inr more ↦
      rw (lt→ltb {a = 0} {b = w.bits} (omega arith))
        (flush_final-Wrote fuel (byte_out-Wrote h (omega arith)) (omega arith) (omega arith))
]

-- A byte string that holds `n` bits of `v`.
pub record IsStream (bs : List ℕ) (v n : ℕ) : Type 0 where
  pub are_bytes : AreBytes bs
  pub count_is : 8 * length bs ≡ n
  pub value_is : le_num bs ≡ v

flushed-IsStream : {w : BitWriter} {v n : ℕ} → Wrote w v n → w.bits ≡ 0 → IsStream w.buf v n
flushed-IsStream {w} h e = record {
  are_bytes = h.are_bytes;
  count_is = omega (arith, h.count_is, e);
  value_is =
      let none_ : w.accum * 2 ^ (8 * length w.buf) ≡ 0 = rw (accum-eq-zero h e) (omega arith) in
      omega (arith, h.value_is, none_);
}

header_bits : (x : ℕ) → x < 256 → bit_or (bit_and (x / 8 * 8) 0xf8) (bit_and (x % 8 % 256) 7) ≡ x
header_bits =
    agree→eq (λ x. bit_or (bit_and (x / 8 * 8) 0xf8) (bit_and (x % 8 % 256) 7)) (λ x. x) 256 refl

-- The count of padding bits goes over three zeros.
put_padding-IsStream :
    {bs : List ℕ} {v n : ℕ} (pad : ℕ)
    → IsStream bs v n
    → pad < 8
    → v % 8 ≡ 0
    → 0 < n
    → IsStream (put_padding pad bs) (v + pad) n
unfolding put_padding le_num
put_padding-IsStream {bs = []} pad s lt e more = absurd (omega (arith, s.count_is))
put_padding-IsStream {bs = b ∷ bs} {v = v} pad s lt e more =
    let low : b % 8 ≡ 0 = omega (arith, e, s.value_is) in
    let eights : (b + pad) / 8 * 8 ≡ b = omega arith in
    let ones : (b + pad) % 8 ≡ pad = omega arith in
    let first : bit_or (bit_and b 0xf8) (bit_and (pad % 256) 7) ≡ b + pad =
      rw (eights, ones) at (header_bits (b + pad) (omega (arith, s.are_bytes.0))) in
    rw first (record {
      are_bytes = (omega (arith, s.are_bytes.0), s.are_bytes.1);
      count_is = s.count_is;
      value_is = omega (arith, s.value_is);
    })

-- `finish` makes whole bytes that hold the bits written, the three lowest of them the count of
-- padding bits.
pub finish-IsStream :
    {w : BitWriter} {v n : ℕ}
    → Writes w v n
    → v % 8 ≡ 0
    → 0 < n
    → IsStream (finish w) (v + gap n) (n + gap n)
unfolding finish gap
finish-IsStream {w} {v} {n} h e more = rw (bits-mod h.wrote) (go (gap n) refl)
  where
    go :
        (k : ℕ)
        → k ≡ gap n
        → IsStream
            (put_padding k (flush_final ((pad_by k w).bits + 1) (pad_by k w)).buf)
            (v + k)
            (n + k)
    go k g =
        let p : Writes (pad_by k w) v (n + k) = pad_by-Writes k h (omega (arith, gap-lt n, g)) in
        let whole : (pad_by k w).bits % 8 ≡ 0 = omega (arith, bits-mod p.wrote, g, gap_fills n) in
        let (out, done) = flush_final-Wrote ((pad_by k w).bits + 1) p.wrote whole (omega arith) in
        put_padding-IsStream k (flushed-IsStream out done) (omega (arith, gap-lt n, g)) e
          (omega arith)
