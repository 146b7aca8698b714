-- ===== src/Bitstream/Reader/Numbers.antt =====
-- `read_i64` and `read_u32_number` on a stream that begins with an encoded number.
use msdelta.Base.{
  ℕ, suc, ◌+◌, ◌-◌, ◌*◌, ◌/◌, ◌%◌, ◌^◌, ◌≤◌, ◌<◌, ◌≡◌, ◌≢◌, inl, inr, refl, ap, sym, ◌∙◌, arith,
  min, bit_and, bit_or, le_cases, ne→==, lt→leb, lt→ltb, le→ltb,
}
use msdelta.Base.Bits.{
  two-pow-add, two-pow-pos, two-pow_mono, mod-mod_two-pow, bit_and_mask, mod-two-pow-add,
}
use msdelta.Base.Bits.Or.{bit_or_above, bit_or_disjoint_left}
use msdelta.Base.Int.{as_i64}
use msdelta.Errors.{ok}
use msdelta.Bitstream.Words.{u32, shl64, mask64, trailing_zeros}
use msdelta.Bitstream.Words.Laws.{shl64_lem, one-shl64, bit_and-mask64}
use msdelta.Bitstream.Words.Zeros.{trailing_zeros_lem}
use msdelta.Bitstream.Stream.{Stream, skip, front}
use msdelta.Bitstream.Code.{Code, prefixed}
use msdelta.Bitstream.Reader.{
  BitReader, remaining, consume_unchecked, read_i64_wide, read_i64_narrow, read_i64_at, read_i64,
  read_number_at, read_u32_number,
}
use msdelta.Bitstream.Reader.Holds.{Holds}
use msdelta.Bitstream.Reader.Reads.{
  ensured, ensure_lem, consume-Holds, low_bits, read_bits-ok, skip-skip,
}
use mathlib.Core.Path.{subst}
use native.Mathlib.Nat.{
  mod-eq_of_lt, div-eq_of_lt, zero-mod, add-mul-mod_self_left, add-mul-div_left, mod-lt,
}

-- The bits that are left without the padding.
pub remaining_lem : {r : BitReader} {s : Stream} → Holds r s → remaining r ≡ s.count - s.padding
unfolding remaining
remaining_lem {r} {s} h =
    omega (arith, h.place.count_is, h.place.small, h.place.padding_is, h.place.in_range)

-- The stream begins with the string `c`, and at least its padding is left behind it.
pub record Begins (s : Stream) (c : Code) : Type 0 where
  pub rest : ℕ
  pub value_is : s.value ≡ c.value + rest * 2 ^ c.width
  pub room : c.width + s.padding ≤ s.count

pub low_part : (x q w : ℕ) → x < 2 ^ w → (x + 2 ^ w * q) % 2 ^ w ≡ x
low_part x q w h = add-mul-mod_self_left x (2 ^ w) q ∙ mod-eq_of_lt h

pub high_part : (x q w : ℕ) → x < 2 ^ w → (x + 2 ^ w * q) / 2 ^ w ≡ q
high_part x q w h = rw (add-mul-div_left x q (two-pow-pos w), div-eq_of_lt h) (omega arith)

-- A stream that begins with a prefix of `k` zeros and the `m` bits of `x`.
module _ {s : Stream} (k m x : ℕ) (fits : x < 2 ^ m) (b : Begins s (prefixed k m x)) where
  prefix_value : s.value ≡ 2 ^ k + 2 ^ (k + 1) * (x + 2 ^ m * b.rest)
  unfolding prefixed
  prefix_value = omega (arith, b.value_is, ap (λ (t : ℕ). b.rest * t) (two-pow-add (k + 1) m))

  prefix_front : front (k + 1) s ≡ 2 ^ k
  prefix_front =
      rw prefix_value (low_part (2 ^ k) _ (k + 1) (omega (arith, two-pow-add k 1, two-pow-pos k)))

  prefix_rest : (skip (k + 1) s).value ≡ x + 2 ^ m * b.rest
  unfolding skip
  prefix_rest =
      rw prefix_value (high_part (2 ^ k) _ (k + 1) (omega (arith, two-pow-add k 1, two-pow-pos k)))

  prefix_number : front m (skip (k + 1) s) ≡ x
  prefix_number = rw prefix_rest (low_part x b.rest m fits)

  prefix_room : k + 1 + m + s.padding ≤ s.count
  unfolding prefixed
  prefix_room = b.room

-- The search for the end of a prefix, with a bit set behind the longest one.
sentinel_zeros :
    (k x : ℕ) → k ≤ 15 → x % 2 ^ (k + 1) ≡ 2 ^ k → trailing_zeros 64 (bit_or x 0x1_0000) ≡ k
sentinel_zeros k x few e =
    let next : k + 1 ≡ suc k = omega arith in
    trailing_zeros_lem 64 k _
      (subst (λ (t : ℕ). bit_or x 0x1_0000 % 2 ^ t ≡ 2 ^ k) next
        (bit_or_above (k + 1) 16 x (omega arith) ∙ e))
      (omega arith)

-- The reader behind a prefix that came into the accumulator with the `w` bits behind it.
after_prefix :
    {r : BitReader} {s : Stream} (p w : ℕ)
    → Holds r s
    → p + w ≤ r.bits
    → p < 64
    → Holds (consume_unchecked p r) (skip p s) × (w ≤ (consume_unchecked p r).bits)
after_prefix p w h got lt =
    (consume-Holds p h (omega arith) lt, unfold consume_unchecked in omega arith)

-- The two reads of a number of more than 32 bits.
halves :
    (s : Stream) (w : ℕ)
    → 32 < w
    → w ≤ 64
    → bit_or (shl64 (front (w - 32) (skip 32 s)) 32) (front 32 s) ≡ front w s
unfolding skip
halves s w lo hi =
    let high : ℕ = s.value / 2 ^ 32 % 2 ^ (w - 32) in
    let fits : high % 2 ^ 32 ≡ high = mod-eq_of_lt (
      omega (
        arith,
        mod-lt (s.value / 2 ^ 32) (two-pow-pos (w - 32)),
        two-pow_mono (w - 32) 32 (omega arith),
      )) in
    let whole : 32 + (w - 32) ≡ w = omega arith in
    rw (shl64_lem high 32 32 (omega arith) refl, fits)
      (bit_or_disjoint_left 32 high _ (mod-lt s.value (two-pow-pos 32))
        ∙ omega (arith, mod-two-pow-add s.value 32 (w - 32), ap (λ (t : ℕ). s.value % 2 ^ t) whole))

-- `read_i64` where the prefix and the value fit the accumulator.
module _ {r : BitReader} {s : Stream} (k x : ℕ) (h : Holds r s) (fits : x < 2 ^ ((k + 1) * 4))
    (b : Begins s (prefixed k ((k + 1) * 4) x)) where
  read_i64_narrow-ok :
      k ≤ 10
      → (r' : BitReader) × (read_i64_narrow k r ≡ ok (as_i64 x, r'))
        × Holds r' (skip (k + 1 + (k + 1) * 4) s)
  unfolding read_i64_narrow
  read_i64_narrow-ok few =
      let w : ℕ = (k + 1) * 4 in
      let (e, h1, got) =
        ensure_lem (k + 1 + w) h (omega arith) (omega (arith, prefix_room k w x fits b)) in
      let (h2, left) = after_prefix (k + 1) w h1 got (omega arith) in
      let value : bit_and (consume_unchecked (k + 1) (ensured (k + 1 + w) r)).accum (mask64 w) ≡ x =
        bit_and-mask64 _ w (omega arith)
        ∙ low_bits w h2 (omega arith) left
        ∙ prefix_number k w x fits b in
      (
        consume_unchecked w (consume_unchecked (k + 1) (ensured (k + 1 + w) r)),
        rw (e, ne→== {a = w} {b = 64} (omega arith), value),
        rw (← skip-skip (k + 1) w (k + 1 + w) s refl) (consume-Holds w h2 left (omega arith)),
      )

  read_i64_wide-ok :
      10 < k
      → k ≤ 15
      → (r' : BitReader) × (read_i64_wide k r ≡ ok (as_i64 x, r'))
        × Holds r' (skip (k + 1 + (k + 1) * 4) s)
  unfolding read_i64_wide
  read_i64_wide-ok many few =
      let w : ℕ = (k + 1) * 4 in
      let room = prefix_room k w x fits b in
      let (e, h1, got) = ensure_lem (k + 1) h (omega arith) (omega (arith, room)) in
      let h2 = consume-Holds (k + 1) h1 got (omega arith) in
      let (r3, e3, h3) = read_bits-ok 32 h2 (omega arith) (unfold skip in omega (arith, room)) in
      let (r4, e4, h4) =
        read_bits-ok (w - 32) h3 (omega arith) (unfold skip in omega (arith, room)) in
      (
        r4,
        rw (
          e,
          lt→leb {a = w} {b = 32} (omega arith),
          e3,
          e4,
          halves (skip (k + 1) s) w (omega arith) (omega arith),
          prefix_number k w x fits b,
        ),
        rw
            (
              ← skip-skip (k + 1) w (k + 1 + w) s refl,
              ← skip-skip 32 (w - 32) w (skip (k + 1) s) (omega arith),
            )
            h4,
      )

  read_i64_at-ok :
      k ≤ 15
      → (r' : BitReader) × (read_i64_at k r ≡ ok (as_i64 x, r'))
        × Holds r' (skip (k + 1 + (k + 1) * 4) s)
  unfolding read_i64_at
  read_i64_at-ok few = elim (le_cases k 10) [
    | inl n ↦
        rw
          (
            ne→== {a = k} {b = 16} (omega arith),
            le→ltb {a = 56} {b = k + 1 + (k + 1) * 4} (omega arith),
          )
          (read_i64_narrow-ok n)
    | inr w ↦
        rw
          (
            ne→== {a = k} {b = 16} (omega arith),
            lt→ltb {a = 56} {b = k + 1 + (k + 1) * 4} (omega arith),
          )
          (read_i64_wide-ok w few)
  ]

-- `read_i64` reads an encoded number and leaves what stands behind it.
pub read_i64-ok :
    {r : BitReader} {s : Stream} (k x : ℕ)
    → Holds r s
    → k ≤ 15
    → x < 2 ^ ((k + 1) * 4)
    → Begins s (prefixed k ((k + 1) * 4) x)
    → (r' : BitReader) × (read_i64 r ≡ ok (as_i64 x, r')) × Holds r' (skip (k + 1 + (k + 1) * 4) s)
unfolding read_i64
read_i64-ok {r} {s} k x h few fits b =
    let w : ℕ = (k + 1) * 4 in
    let room = prefix_room k w x fits b in
    let want : ℕ = min 17 (remaining r) in
    let left = remaining_lem h in
    let (e, h1, got) = ensure_lem want h (omega arith) (omega (arith, left)) in
    let prefix : (ensured want r).accum % 2 ^ (k + 1) ≡ 2 ^ k =
      low_bits (k + 1) h1 (omega arith) (omega (arith, left, got, room))
      ∙ prefix_front k w x fits b in
    let zeros : trailing_zeros 64 (bit_or (ensured want r).accum 0x1_0000) ≡ k =
      sentinel_zeros k _ few prefix in
    rw (e, zeros) (read_i64_at-ok k x h1 fits b few)

one_or : (w x : ℕ) → x < 2 ^ w → bit_or (2 ^ w) x ≡ 2 ^ w + x
one_or w x fits =
    let one : 1 * 2 ^ w ≡ 2 ^ w = omega arith in rw one at (bit_or_disjoint_left w 1 x fits)

number_zeros : (k x : ℕ) → k ≤ 23 → x % 2 ^ (k + 1) ≡ 2 ^ k → trailing_zeros 32 x ≡ k
number_zeros k x few e =
    let next : k + 1 ≡ suc k = omega arith in
    trailing_zeros_lem 32 k x (subst (λ (t : ℕ). x % 2 ^ t ≡ 2 ^ k) next e) (omega arith)

nonzero : (k x : ℕ) → x % 2 ^ (k + 1) ≡ 2 ^ k → x ≢ 0
nonzero k x e z =
    let none_ : x % 2 ^ (k + 1) ≡ 0 = rw z (zero-mod (2 ^ (k + 1))) in
    absurd (omega (arith, e, none_, two-pow-pos k))

-- `read_u32_number` behind its search.
read_number_at-ok :
    {r : BitReader} {s : Stream} (k x : ℕ)
    → Holds r s
    → k ≤ 23
    → x < 2 ^ (k + 8)
    → Begins s (prefixed k (k + 8) x)
    → (r' : BitReader) × (read_number_at k r ≡ ok (2 ^ (k + 8) + x, r'))
      × Holds r' (skip (k + 1 + (k + 8)) s)
unfolding read_number_at
read_number_at-ok {r} {s} k x h few fits b =
    let w : ℕ = k + 8 in
    let (e, h1, got) =
      ensure_lem (k + 1 + w) h (omega arith) (omega (arith, prefix_room k w x fits b)) in
    let (h2, left) = after_prefix (k + 1) w h1 got (omega arith) in
    let value : bit_and (consume_unchecked (k + 1) (ensured (k + 1 + w) r)).accum (mask64 w) ≡ x =
      bit_and-mask64 _ w (omega arith)
      ∙ low_bits w h2 (omega arith) left
      ∙ prefix_number k w x fits b in
    let top : 2 ^ w < 2 ^ 32 =
      omega (arith, two-pow_mono (w + 1) 32 (omega arith), two-pow-add w 1, two-pow-pos w) in
    let sum : bit_or (u32 (shl64 1 w)) (u32 x) ≡ 2 ^ w + x =
      rw
        (
          one-shl64 w (omega arith),
          mod-eq_of_lt top,
          mod-eq_of_lt {n = x} {m = 2 ^ 32} (omega (arith, top)),
        )
        (one_or w x fits) in
    (
      consume_unchecked w (consume_unchecked (k + 1) (ensured (k + 1 + w) r)),
      rw (le→ltb {a = 23} {b = k} few, e, value, sum),
      rw (← skip-skip (k + 1) w (k + 1 + w) s refl) (consume-Holds w h2 left (omega arith)),
    )

-- `read_u32_number` reads an encoded number and leaves what stands behind it.
pub read_u32_number-ok :
    {r : BitReader} {s : Stream} (k x : ℕ)
    → Holds r s
    → k ≤ 23
    → x < 2 ^ (k + 8)
    → Begins s (prefixed k (k + 8) x)
    → (r' : BitReader) × (read_u32_number r ≡ ok (2 ^ (k + 8) + x, r'))
      × Holds r' (skip (k + 1 + (k + 8)) s)
unfolding read_u32_number
read_u32_number-ok {r} {s} k x h few fits b =
    let w : ℕ = k + 8 in
    let room = prefix_room k w x fits b in
    let want : ℕ = min 32 (remaining r) in
    let left = remaining_lem h in
    let (e, h1, got) = ensure_lem want h (omega arith) (omega (arith, left)) in
    let prefix : (ensured want r).accum % 2 ^ (k + 1) ≡ 2 ^ k =
      low_bits (k + 1) h1 (omega arith) (omega (arith, left, got, room))
      ∙ prefix_front k w x fits b in
    let word : u32 (ensured want r).accum % 2 ^ (k + 1) ≡ 2 ^ k =
      mod-mod_two-pow _ (k + 1) 32 (omega arith) ∙ prefix in
    let some_ : bit_and (ensured want r).accum 0xffff_ffff ≢ 0 =
      λ z. nonzero k _ word (sym (bit_and_mask 32 _) ∙ z) in
    rw (e, ne→== some_, number_zeros k _ few word) (read_number_at-ok k x h1 few fits b)
