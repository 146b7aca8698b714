-- ===== src/Bitstream/Reader/Reads.antt =====
-- `ensure_bits`, `consume_unchecked`, `peek` and `read_bits` on the stream that the reader holds.
use msdelta.Base.{
  ℕ, zero, suc, ◌+◌, ◌-◌, ◌/◌, ◌%◌, ◌^◌, ◌≤◌, ◌<◌, ◌≡◌, inl, inr, refl, ap, ◌∙◌, arith, bit_and,
  bit_or, le_cases, ne→==, le→leb, lt→leb, lt→ltb, le→ltb, ltb, if◌then◌else◌,
}
use msdelta.Base.Bits.{
  mod-div_two-pow, mod-mod_two-pow, div-two-pow-add, mod-two-pow-add, bit_or_disjoint, bit_and_mask,
  two-pow-pos, two-pow_mono,
}
use msdelta.Errors.{Error, Result, ok, err, ◌>>=◌, bitstream_exhausted}
use msdelta.Bitstream.Words.{shl64, mask64}
use msdelta.Bitstream.Words.Laws.{shr64_lem, shl64_lem, bit_and-mask64}
use msdelta.Bitstream.Stream.{
  Stream, skip, front, take_bits, take_bits-ok, take_bits_narrow, take_bits_low, take_bits_high,
}
use mathlib.Core.Path.{subst}
use msdelta.Bitstream.Reader.{
  BitReader, refill, consume_unchecked, ensure_bits, read_narrow, read_wide, read_bits,
}
use msdelta.Bitstream.Reader.Holds.{Loads, Holds, IsFresh-Holds, refill-IsFresh}
use native.Mathlib.Nat.{mod-lt, mod-eq_of_lt}

-- Consuming bits that the accumulator counts moves the stream by as many.
pub consume-Holds :
    {r : BitReader} {s : Stream} (k : ℕ)
    → Holds r s
    → k ≤ r.bits
    → k < 64
    → Holds (consume_unchecked k r) (skip k s)
unfolding consume_unchecked skip
consume-Holds {r} {s} k h le lt = record {
  place = record {
    are_bytes = h.place.are_bytes;
    in_range = h.place.in_range;
    fits = omega (arith, h.place.fits);
    count_is = omega (arith, h.place.count_is);
    small = omega (arith, h.place.small);
    ahead =
        rw (← div-two-pow-add s.value k (r.bits - k))
          (ap (λ (t : ℕ). s.value / 2 ^ t) (omega arith) ∙ h.place.ahead);
    padding_is = h.place.padding_is;
  };
  loads = λ more.
      let l : Loads r s = h.loads (omega arith) in
      record {
        window = l.window - k;
        window_lo = omega (arith, l.window_lo);
        window_hi = omega (arith, l.window_hi);
        accum_is =
            rw (shr64_lem r.accum k lt, l.accum_is)
              (mod-div_two-pow s.value k l.window (omega (arith, l.window_lo)));
      };
}

bits-le-count : {r : BitReader} {s : Stream} → Holds r s → r.bits ≤ s.count
bits-le-count h = omega (arith, h.place.count_is)

-- The reader that `ensure_bits` returns where there are enough bits.
pub ensured : ℕ → BitReader → BitReader
ensured k r = if ltb r.bits k then refill r else r

-- Where the stream has the bits, `ensure_bits` brings them into the accumulator.
pub ensure_lem :
    {r : BitReader} {s : Stream} (k : ℕ)
    → Holds r s
    → k ≤ 57
    → k ≤ s.count
    → (ensure_bits k r ≡ ok (ensured k r)) × Holds (ensured k r) s × (k ≤ (ensured k r).bits)
unfolding ensure_bits ensured
ensure_lem {r} {s} k h small enough = elim (le_cases k r.bits) [
  | inl have ↦ rw (le→ltb have) (refl, h, have)
  | inr few ↦
      let (f, full) = refill-IsFresh h (omega arith) in
      let got : k ≤ (refill r).bits = omega (arith, full) in
      rw (lt→ltb few, le→ltb got) (refl, IsFresh-Holds f, got)
]

-- Where it has not, the error says how many there are.
pub ensure_exhausted :
    {r : BitReader} {s : Stream} (k : ℕ)
    → Holds r s
    → k ≤ 57
    → s.count < k
    → ensure_bits k r ≡ err (bitstream_exhausted k s.count)
unfolding ensure_bits
ensure_exhausted {r} {s} k h small few =
    let (f, full) = refill-IsFresh h (omega (arith, bits-le-count h)) in
    let all : (refill r).bits ≡ s.count = omega (arith, full, bits-le-count (IsFresh-Holds f)) in
    rw (lt→ltb {a = r.bits} {b = k} (omega (arith, bits-le-count h)), all, lt→ltb few)

-- The accumulator's low bits are the stream's.
pub low_bits :
    {r : BitReader} {s : Stream} (k : ℕ)
    → Holds r s
    → 0 < k
    → k ≤ r.bits
    → r.accum % 2 ^ k ≡ front k s
low_bits {r} {s} k h more le =
    let l : Loads r s = h.loads (omega arith) in
    rw l.accum_is (mod-mod_two-pow s.value k l.window (omega (arith, l.window_lo)))

pub read_narrow_lem :
    {r : BitReader} {s : Stream} (k : ℕ)
    → Holds r s
    → 0 < k
    → k ≤ 56
    → k ≤ s.count
    → read_narrow k r ≡ ok (front k s, consume_unchecked k (ensured k r))
unfolding read_narrow
read_narrow_lem {r} {s} k h more small enough =
    let (e, h', got) = ensure_lem k h (omega arith) enough in
    rw (e, bit_and-mask64 _ k (omega arith), low_bits k h' more got)

-- A read on the code's side and on the stream's: the same value, with the reader at the rest of
-- the stream; or the same error.
pub data Matches {A : Type 0} : Result (A × BitReader) → Result (A × Stream) → Type 0 where
  both : {a : A} {r : BitReader} {s : Stream} → Holds r s → Matches (ok (a, r)) (ok (a, s))
  neither : {e : Error} → Matches (err e) (err e)

pub Matches-ok :
    {A : Type 0} {m : Result (A × BitReader)} {t : Result (A × Stream)} {a : A} {s : Stream}
    → Matches m t
    → t ≡ ok (a, s)
    → (r : BitReader) × (m ≡ ok (a, r)) × Holds r s
Matches-ok {a = a} {s = s} (both {a = b} {r = r} {s = t} h) e =
    let e1 : b ≡ a = cc in
    let e2 : t ≡ s = cc in (r, ap (λ x. ok (x, r)) e1, subst (λ x. Holds r x) e2 h)
Matches-ok neither e = cc

pub skip-zero : (s : Stream) → skip 0 s ≡ s
unfolding skip
skip-zero s =
    let v : s.value / 2 ^ 0 ≡ s.value = omega arith in
    let c : s.count - 0 ≡ s.count = omega arith in
    λ i. record { value = v i; count = c i; padding = s.padding }

pub skip-skip : (j k n : ℕ) (s : Stream) → j + k ≡ n → skip k (skip j s) ≡ skip n s
unfolding skip
skip-skip j k n s e =
    let v : s.value / 2 ^ j / 2 ^ k ≡ s.value / 2 ^ n =
      rw (← div-two-pow-add s.value j k) (ap (λ (t : ℕ). s.value / 2 ^ t) e) in
    let c : s.count - j - k ≡ s.count - n = omega arith in
    λ i. record { value = v i; count = c i; padding = s.padding }

-- Two parts of a read that is wider than 56 bits.
wide_value :
    (n : ℕ) (s : Stream)
    → 56 < n
    → n ≤ 64
    → bit_or (front 32 s) (shl64 (front (n - 32) (skip 32 s)) 32) ≡ front n s
unfolding skip
wide_value n s lo hi =
    let high : ℕ = s.value / 2 ^ 32 % 2 ^ (n - 32) in
    let fits : high % 2 ^ 32 ≡ high = mod-eq_of_lt (
      omega (
        arith,
        mod-lt (s.value / 2 ^ 32) (two-pow-pos (n - 32)),
        two-pow_mono (n - 32) 32 (omega arith),
      )) in
    rw (shl64_lem high 32 32 (omega arith) refl, fits)
      (bit_or_disjoint 32 _ high (mod-lt s.value (two-pow-pos 32))
        ∙ (omega
            (arith, mod-two-pow-add s.value 32 (n - 32), ap (λ (t : ℕ). s.value % 2 ^ t) whole)))
  where
    whole : 32 + (n - 32) ≡ n
    whole = omega arith

-- The second part of a wide read, at the reader behind the first.
wide_second :
    {r : BitReader} (s : Stream) (n low : ℕ)
    → Holds r (skip 32 s)
    → low ≡ front 32 s
    → 56 < n
    → n ≤ 64
    → 32 ≤ s.count
    → Matches
        (ensure_bits (n - 32) r >>= λ r2. ok (
          bit_or low (shl64 (bit_and r2.accum (mask64 (n - 32))) 32),
          consume_unchecked (n - 32) r2,
        ))
        (take_bits n s)
unfolding skip
wide_second {r} s n low h l lo hi c = elim (le_cases n s.count) [
  | inr few ↦
      rw (ensure_exhausted (n - 32) h (omega arith) (omega arith), take_bits_high n s few lo c)
        neither
  | inl enough ↦
      let (e, h', got) = ensure_lem (n - 32) h (omega arith) (omega arith) in
      rw
        (
          e,
          take_bits-ok n s enough,
          bit_and-mask64 _ (n - 32) (omega arith),
          low_bits (n - 32) h' (omega arith) got,
          l,
          wide_value n s lo hi,
          ← skip-skip 32 (n - 32) n s (omega arith),
        )
        (both (consume-Holds (n - 32) h' got (omega arith)))
]

read_wide-Matches :
    {r : BitReader} {s : Stream} (n : ℕ)
    → Holds r s
    → 56 < n
    → n ≤ 64
    → Matches (read_wide n r) (take_bits n s)
unfolding read_wide
read_wide-Matches {r} {s} n h lo hi = elim (le_cases 32 s.count) [
  | inr few ↦
      rw (ensure_exhausted 32 h (omega arith) few, take_bits_low n s (omega arith) lo few) neither
  | inl enough ↦
      let (e, h', got) = ensure_lem 32 h (omega arith) enough in
      rw e (
        wide_second s n _ (consume-Holds 32 h' got (omega arith))
          (bit_and_mask 32 _ ∙ low_bits 32 h' (omega arith) got) lo hi enough)
]

read_narrow-Matches :
    {r : BitReader} {s : Stream} (n : ℕ)
    → Holds r s
    → 0 < n
    → n ≤ 56
    → Matches (read_narrow n r) (take_bits n s)
read_narrow-Matches {r} {s} n h more narrow = elim (le_cases n s.count) [
  | inr few ↦
      let e : read_narrow n r ≡ err (bitstream_exhausted n s.count) =
        unfold read_narrow in rw (ensure_exhausted n h (omega arith) few) in
      rw (e, take_bits_narrow n s few narrow) neither
  | inl enough ↦
      let (e, h', got) = ensure_lem n h (omega arith) enough in
      rw (read_narrow_lem n h more narrow enough, take_bits-ok n s enough)
        (both (consume-Holds n h' got (omega arith)))
]

-- `read_bits` of at most 64 bits does on the reader what `take_bits` does on its stream.
pub read_bits-Matches :
    {r : BitReader} {s : Stream} (n : ℕ)
    → Holds r s
    → n ≤ 64
    → Matches (read_bits n r) (take_bits n s)
unfolding read_bits
read_bits-Matches {r} {s} zero h hi =
    let z : front 0 s ≡ 0 = omega arith in
    rw (take_bits-ok 0 s (omega arith), z, skip-zero s) (both h)
read_bits-Matches {r} {s} (suc n) h hi = elim (le_cases (suc n) 56) [
  | inr wide ↦
      rw (ne→== {a = suc n} {b = 0} (omega arith), lt→leb wide)
        (read_wide-Matches (suc n) h wide hi)
  | inl narrow ↦
      rw (ne→== {a = suc n} {b = 0} (omega arith), le→leb narrow)
        (read_narrow-Matches (suc n) h (omega arith) narrow)
]

-- Where the stream has the bits, they are read.
pub read_bits-ok :
    {r : BitReader} {s : Stream} (n : ℕ)
    → Holds r s
    → n ≤ 64
    → n ≤ s.count
    → (r' : BitReader) × (read_bits n r ≡ ok (front n s, r')) × Holds r' (skip n s)
read_bits-ok {r} {s} n h hi enough = Matches-ok (read_bits-Matches n h hi) (take_bits-ok n s enough)
