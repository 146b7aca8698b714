-- ===== src/Bitstream/Writer/Wrote.antt =====
-- The writer's refinement relation: `Wrote w v n` says that the writer `w` has written the `n` bits
-- of the number `v`, lowest first, to its buffer and its accumulator.
use msdelta.Base.{
  ℕ, zero, suc, ◌+◌, ◌-◌, ◌*◌, ◌/◌, ◌%◌, ◌^◌, ◌≤◌, ◌<◌, ◌≡◌, inl, inr, ap, ◌∙◌, arith, ◌++◌, length,
  length-append, All-append, le_cases, le→leb, lt→leb,
}
use msdelta.Base.Bytes.{
  AreBytes, IsByte, le_num, le_num-append, le_num-le_bytes, length-le_bytes, le_bytes-AreBytes,
  le_bytes,
}
use msdelta.Base.Bits.{div_two-pow-lt, two-pow-add}
use msdelta.Bitstream.Words.{u32, shr64}
use msdelta.Bitstream.Words.Laws.{shr64_lem}
use msdelta.Bitstream.Writer.{BitWriter, flush_words, flush}
use mathlib.Core.Path.{subst}
use native.Mathlib.Nat.{div-add-mod, mod-mod}

pub record Wrote (w : BitWriter) (v n : ℕ) : Type 0 where
  pub are_bytes : AreBytes w.buf
  pub fits : w.accum < 2 ^ w.bits
  pub width : w.bits ≤ 64
  pub count_is : n ≡ 8 * length w.buf + w.bits
  pub value_is : v ≡ le_num w.buf + w.accum * 2 ^ (8 * length w.buf)

split_word : (x p : ℕ) → x * p ≡ x % 2 ^ 32 * p + x / 2 ^ 32 * (2 ^ 32 * p)
split_word x p = omega (arith, ap (λ (t : ℕ). t * p) (div-add-mod x (2 ^ 32)))

-- Writing one 32-bit word out of the accumulator.
module _ {w : BitWriter} {v n : ℕ} (h : Wrote w v n) (full : 32 ≤ w.bits) where
  abbrev word_out : BitWriter
  word_out = record w {
    buf = w.buf ++ le_bytes 4 (u32 w.accum);
    accum = shr64 w.accum 32;
    bits = w.bits - 32;
  }

  word_out-length : length (w.buf ++ le_bytes 4 (u32 w.accum)) ≡ length w.buf + 4
  word_out-length = rw (length-append, length-le_bytes)

  word_out-value : v ≡ le_num word_out.buf + word_out.accum * 2 ^ (8 * length word_out.buf)
  word_out-value =
      let p : ℕ = 2 ^ (8 * length w.buf) in
      let wide : 2 ^ (8 * length word_out.buf) ≡ 2 ^ 32 * p =
        rw word_out-length (ap (λ (t : ℕ). 2 ^ t) grown ∙ two-pow-add 32 (8 * length w.buf)) in
      rw (wide, le_num-append, le_num-le_bytes, shr64_lem w.accum 32 (omega arith), mod-mod)
        (omega (arith, h.value_is, split_word w.accum p))
    where
      grown : 8 * (length w.buf + 4) ≡ 32 + 8 * length w.buf
      grown = omega arith

  word_out-Wrote : Wrote word_out v n
  word_out-Wrote = record {
    are_bytes = All-append IsByte w.buf _ h.are_bytes (le_bytes-AreBytes 4 (u32 w.accum));
    fits = rw (shr64_lem w.accum 32 (omega arith)) (div_two-pow-lt w.accum 32 w.bits full h.fits);
    width = omega (arith, h.width);
    count_is = omega (arith, h.count_is, word_out-length, full);
    value_is = word_out-value;
  }

flush_words-Wrote :
    (fuel : ℕ) {w : BitWriter} {v n : ℕ}
    → Wrote w v n
    → w.bits < 32 * fuel + 32
    → Wrote (flush_words fuel w) v n
      × ((flush_words fuel w).bits < 32)
      × ((flush_words fuel w).bits ≡ w.bits % 32)
unfolding flush_words
flush_words-Wrote zero h few = (h, omega arith, omega arith)
flush_words-Wrote (suc fuel) {w} h few = elim (le_cases 32 w.bits) [
  | inl full ↦
      let (h', short, e) = flush_words-Wrote fuel (word_out-Wrote h full) (omega arith) in
      rw (le→leb full) (h', short, omega (arith, e, full))
  | inr short ↦ rw (lt→leb short) (h, short, omega (arith, short))
]

-- `flush` writes the same bits, and leaves fewer than 32 in the accumulator.
pub flush-Wrote :
    {w : BitWriter} {v n : ℕ}
    → Wrote w v n
    → Wrote (flush w) v n × ((flush w).bits < 32) × ((flush w).bits ≡ w.bits % 32)
unfolding flush
flush-Wrote h = flush_words-Wrote 2 h (omega (arith, h.width))

-- Nothing is in an accumulator that counts no bits.
pub accum-eq-zero : {w : BitWriter} {v n : ℕ} → Wrote w v n → w.bits ≡ 0 → w.accum ≡ 0
accum-eq-zero {w} h e =
    let one : w.accum < 2 ^ 0 = subst (λ (t : ℕ). w.accum < 2 ^ t) e h.fits in omega (arith, one)
