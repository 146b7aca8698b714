-- ===== src/Bitstream/Writer/Writes.antt =====
-- `write_bits` appends the low bits of its value to the bits written.
use msdelta.Base.{
  ℕ, zero, suc, ◌+◌, ◌-◌, ◌*◌, ◌/◌, ◌%◌, ◌^◌, ◌≤◌, ◌<◌, ◌≡◌, inl, inr, ap, ◌∙◌, arith, bit_and,
  bit_or, length, le_cases, eq_cases, eq→==, ne→==, lt→ltb, le→ltb, ◌==◌, if◌then◌else◌,
}
use msdelta.Base.Bytes.{le_num}
use msdelta.Base.Bits.{
  div_two-pow-lt, join-lt, two-pow-add, two-pow-pos, two-pow_mono, bit_or_disjoint,
}
use msdelta.Bitstream.Words.{shl64, shr64, mask64}
use msdelta.Bitstream.Words.Laws.{shr64_lem, shl64_lem, bit_and-mask64}
use msdelta.Bitstream.Writer.{BitWriter, flush, write_over, write_within, write_bits}
use msdelta.Bitstream.Writer.Wrote.{Wrote, flush-Wrote}
use mathlib.Core.Path.{subst, subst₂}
use native.Mathlib.Nat.{mod-lt, mod-eq_of_lt, div-add-mod}

-- The writer between two calls: fewer than 32 bits wait in the accumulator.
pub record Writes (w : BitWriter) (v n : ℕ) : Type 0 where
  pub wrote : Wrote w v n
  pub short : w.bits < 32

-- A field of `k` bits that fits above the accumulator's bits.
placed :
    {w : BitWriter} {v n : ℕ} (x k : ℕ)
    → Wrote w v n
    → x < 2 ^ k
    → w.bits + k ≤ 64
    → 0 < k
    → bit_or w.accum (shl64 x w.bits) ≡ w.accum + x * 2 ^ w.bits
placed {w} x k h fits room more =
    let whole : x % 2 ^ (64 - w.bits) ≡ x =
      mod-eq_of_lt (omega (arith, fits, two-pow_mono k (64 - w.bits) (omega arith))) in
    rw (shl64_lem x w.bits (64 - w.bits) (omega arith) (omega arith), whole)
      (bit_or_disjoint w.bits w.accum x h.fits)

-- The bits above the accumulator's are the next of all the bits written.
appended :
    {w : BitWriter} {v n : ℕ} (x : ℕ)
    → Wrote w v n
    → v + x * 2 ^ n ≡ le_num w.buf + (w.accum + x * 2 ^ w.bits) * 2 ^ (8 * length w.buf)
appended {w} {v} {n} x h =
    let split : 2 ^ n ≡ 2 ^ (8 * length w.buf) * 2 ^ w.bits =
      ap (λ (t : ℕ). 2 ^ t) h.count_is ∙ two-pow-add (8 * length w.buf) w.bits in
    rw split (omega (arith, h.value_is))

write_within-Wrote :
    {w : BitWriter} {v n : ℕ} (x k : ℕ)
    → Wrote w v n
    → x < 2 ^ k
    → w.bits + k ≤ 64
    → 0 < k
    → Wrote (write_within x k w) (v + x * 2 ^ n) (n + k)
unfolding write_within
write_within-Wrote {w} x k h fits room more = record {
  are_bytes = h.are_bytes;
  fits = rw (placed x k h fits room more) (join-lt w.accum x w.bits k h.fits fits);
  width = room;
  count_is = omega (arith, h.count_is);
  value_is = rw (placed x k h fits room more) (appended x h);
}

-- The accumulator filled up with the low bits of a field that does not fit it.
filled : ℕ → BitWriter → BitWriter
filled x w = write_within (x % 2 ^ (64 - w.bits)) (64 - w.bits) w

filled_lem :
    (x : ℕ) (w : BitWriter)
    → w.bits < 32
    → 0 < w.bits
    → (k : ℕ)
    → write_over x k w
      ≡ record (flush (filled x w)) { accum = shr64 x (64 - w.bits); bits = k - (64 - w.bits) }
unfolding write_over write_within filled
filled_lem x w short some_ k =
    let e : w.bits + (64 - w.bits) ≡ 64 = omega arith in
    rw (
      ne→== {a = 64 - w.bits} {b = 64} (omega arith),
      bit_and-mask64 x (64 - w.bits) (omega arith),
      e,
    )

-- A field put into an accumulator that is empty.
refilled :
    {f : BitWriter} {v n : ℕ} (y j : ℕ)
    → Wrote f v n
    → f.bits ≡ 0
    → y < 2 ^ j
    → j ≤ 64
    → Wrote (record f { accum = y; bits = j }) (v + y * 2 ^ n) (n + j)
refilled {f} {v} {n} y j h e fits wide = record {
  are_bytes = h.are_bytes;
  fits = fits;
  width = wide;
  count_is = omega (arith, h.count_is, e);
  value_is = omega (arith, h.value_is, none_, ap (λ (t : ℕ). y * 2 ^ t) h.count_is, at_end);
}
  where
    one : f.accum < 2 ^ 0
    one = subst (λ (t : ℕ). f.accum < 2 ^ t) e h.fits

    none_ : f.accum * 2 ^ (8 * length f.buf) ≡ 0
    none_ = let z : f.accum ≡ 0 = omega (arith, one) in rw z (omega arith)

    at_end : y * 2 ^ (8 * length f.buf + f.bits) ≡ y * 2 ^ (8 * length f.buf)
    at_end = ap (λ (t : ℕ). y * 2 ^ t) (omega (arith, e))

pub two_parts : (x m n : ℕ) → x * 2 ^ n ≡ x % 2 ^ m * 2 ^ n + x / 2 ^ m * 2 ^ (n + m)
two_parts x m n = omega (
  arith,
  ap (λ (t : ℕ). t * 2 ^ n) (div-add-mod x (2 ^ m)),
  ap (λ (t : ℕ). x / 2 ^ m * t) (two-pow-add n m),
)

write_over-Wrote :
    {w : BitWriter} {v n : ℕ} (x k : ℕ)
    → Writes w v n
    → x < 2 ^ k
    → 64 < w.bits + k
    → k ≤ 64
    → Wrote (write_over x k w) (v + x * 2 ^ n) (n + k)
write_over-Wrote {w} {v} {n} x k h fits over wide =
    let m : ℕ = 64 - w.bits in
    let first : Wrote (filled x w) (v + x % 2 ^ m * 2 ^ n) (n + m) =
      unfold filled in
      write_within-Wrote (x % 2 ^ m) m h.wrote (mod-lt x (two-pow-pos m)) (omega (arith, h.short))
        (omega (arith, h.short)) in
    let (out, _, left) = flush-Wrote first in
    let full : (filled x w).bits ≡ 64 = unfold filled write_within in omega (arith, h.short) in
    let second =
      refilled (x / 2 ^ m) (k - m) out (omega (arith, left, full))
        (div_two-pow-lt x m k (omega (arith, h.short)) fits) (omega arith) in
    let value : v + x % 2 ^ m * 2 ^ n + x / 2 ^ m * 2 ^ (n + m) ≡ v + x * 2 ^ n =
      omega (arith, two_parts x m n) in
    let count : n + m + (k - m) ≡ n + k = omega (arith, h.short) in
    let over_full : BitWriter = record (flush (filled x w)) { accum = x / 2 ^ m; bits = k - m } in
    rw (filled_lem x w h.short (omega arith) k, shr64_lem x m (omega arith))
      (subst₂ (λ a b. Wrote over_full a b) value count second)

pub flushed : {w : BitWriter} {v n : ℕ} → Wrote w v n → Writes (flush w) v n
flushed h = let (h', short, _) = flush-Wrote h in record { wrote = h'; short = short }

masked_lem :
    (x k : ℕ) → k ≤ 64 → x < 2 ^ 64 → (if k == 64 then x else bit_and x (mask64 k)) ≡ x % 2 ^ k
masked_lem x k wide fits = elim (eq_cases k 64) [
  | inl e ↦ rw (eq→== e, e) (omega arith)
  | inr n ↦ rw (ne→== n) (bit_and-mask64 x k (omega arith))
]

-- `write_bits` of at most 64 bits appends the low `k` bits of `x`.
pub write_bits-Writes :
    {w : BitWriter} {v n : ℕ} (x k : ℕ)
    → Writes w v n
    → k ≤ 64
    → x < 2 ^ 64
    → Writes (write_bits x k w) (v + x % 2 ^ k * 2 ^ n) (n + k)
unfolding write_bits
write_bits-Writes {w} {v} {n} x zero h wide fits =
    let none_ : x % 2 ^ 0 ≡ 0 = omega arith in
    let value : v ≡ v + x % 2 ^ 0 * 2 ^ n = omega (arith, ap (λ (t : ℕ). t * 2 ^ n) none_) in
    let count : n ≡ n + 0 = omega arith in subst₂ (λ a b. Writes w a b) value count h
write_bits-Writes {w} {v} {n} x (suc k) h wide fits =
    rw (masked_lem x (suc k) wide fits, ne→== {a = suc k} {b = 0} (omega arith))
      (elim (le_cases (w.bits + suc k) 64) [
        | inl within ↦
            rw (le→ltb within)
              (flushed (write_within-Wrote low (suc k) h.wrote fits' within (omega arith)))
        | inr over ↦ rw (lt→ltb over) (flushed (write_over-Wrote low (suc k) h fits' over wide))
      ])
  where
    low : ℕ
    low = x % 2 ^ suc k

    fits' : low < 2 ^ suc k
    fits' = mod-lt x (two-pow-pos (suc k))

-- What was written, put another way.
pub Writes-at : {w : BitWriter} {v n : ℕ} (u m : ℕ) → Writes w v n → v ≡ u → n ≡ m → Writes w u m
Writes-at {w} u m h e d = subst₂ (λ a b. Writes w a b) e d h
