-- ===== src/Bitstream/Reader/Joined.antt =====
-- `read_buffer` and `new`, on a stream that begins with one string behind another.
use msdelta.Base.{
  ℕ, ◌+◌, ◌-◌, ◌*◌, ◌/◌, ◌%◌, ◌^◌, ◌≤◌, ◌<◌, ◌≡◌, inl, inr, refl, ap, sym, ◌∙◌, arith, List, [],
  ◌∷◌, length, bit_and, le→ltb, lt→ltb,
}
use msdelta.Base.Bits.{two-pow-add, two-pow-pos, join-lt, bit_and_mask}
use msdelta.Base.Bytes.{AreBytes, le_num}
use msdelta.Base.Int.{as_i64}
use msdelta.Errors.{ok}
use msdelta.Bitstream.Stream.{Stream, skip}
use msdelta.Bitstream.Code.{
  Code, join, prefixed, nibbles_of, nibbles_of_fit, i64_code, bytes_code, gap, buffer_code,
}
use msdelta.Bitstream.Reader.{
  BitReader, consume_unchecked, refill, new, read_i64, read_sized, read_buffer,
}
use msdelta.Bitstream.Reader.Holds.{Holds, IsFresh-Holds, refill-IsFresh}
use msdelta.Bitstream.Reader.Reads.{consume-Holds, skip-skip}
use msdelta.Bitstream.Reader.Numbers.{Begins, high_part, read_i64-ok}
use msdelta.Bitstream.Reader.Buffers.{read_sized-ok}
use msdelta.Bitstream.Writer.Finish.{IsStream}
use mathlib.Core.Path.{subst}

module _ {s : Stream} (a b : Code) (h : Begins s (join a b)) where
  joined_value : s.value ≡ a.value + 2 ^ a.width * (b.value + h.rest * 2 ^ b.width)
  unfolding join
  joined_value = omega (arith, h.value_is, ap (λ (t : ℕ). h.rest * t) (two-pow-add a.width b.width))

  pub Begins-first : Begins s a
  unfolding join
  Begins-first = record {
    rest = b.value + h.rest * 2 ^ b.width;
    value_is = omega (arith, joined_value);
    room = omega (arith, h.room);
  }

  pub Begins-next : a.value < 2 ^ a.width → Begins (skip a.width s) b
  unfolding join skip
  Begins-next fits = record {
    rest = h.rest;
    value_is = rw joined_value (high_part a.value _ a.width fits);
    room = omega (arith, h.room);
  }

-- The width of a prefixed number is enough for it.
pub prefixed-lt : (k m x : ℕ) → x < 2 ^ m → (prefixed k m x).value < 2 ^ (prefixed k m x).width
unfolding prefixed
prefixed-lt k m x fits =
    join-lt (2 ^ k) x (k + 1) m (omega (arith, two-pow-add k 1, two-pow-pos k)) fits

pub i64_code-lt : (v : ℕ) → v < 2 ^ 64 → (i64_code v).value < 2 ^ (i64_code v).width
unfolding i64_code
i64_code-lt v lt =
    let (_, fits) = nibbles_of_fit v lt in
    prefixed-lt (nibbles_of v) ((nibbles_of v + 1) * 4) v fits

-- `read_i64` reads an encoded word and leaves what stands behind it.
pub read_word-ok :
    {r : BitReader} {s : Stream} (v : ℕ)
    → Holds r s
    → v < 2 ^ 64
    → Begins s (i64_code v)
    → (r' : BitReader) × (read_i64 r ≡ ok (as_i64 v, r')) × Holds r' (skip (i64_code v).width s)
unfolding i64_code prefixed
read_word-ok v h lt b =
    let (few, fits) = nibbles_of_fit v lt in read_i64-ok (nibbles_of v) v h few fits b

-- The end of `read_buffer` for the length `length bs`.
sized :
    (r r1 r2 : BitReader) (bs : List ℕ)
    → length bs < 2 ^ 63
    → read_i64 r ≡ ok (as_i64 (length bs), r1)
    → read_sized (length bs) r1 ≡ ok (bs, r2)
    → read_buffer r ≡ ok (bs, r2)
unfolding read_buffer as_i64
sized r r1 r2 bs short e1 e2 =
    rw
      (
        e1,
        lt→ltb {a = length bs} {b = 2 ^ 63} short,
        le→ltb {a = length bs + 0} {b = 0} (omega arith),
      )
      e2

-- `read_buffer` reads an encoded buffer and leaves what stands behind it.
pub read_buffer-ok :
    {r : BitReader} {s : Stream} (n : ℕ) (bs : List ℕ)
    → Holds r s
    → AreBytes bs
    → length bs < 2 ^ 63
    → (n + s.count) % 8 ≡ 0
    → Begins s (buffer_code n bs)
    → (r' : BitReader) × (read_buffer r ≡ ok (bs, r')) × Holds r' (skip (buffer_code n bs).width s)
unfolding read_buffer buffer_code
read_buffer-ok {r} {s} n bs h g short at_bit b =
    let size : Code = i64_code (length bs) in
    let first = Begins-first size _ b in
    let (r1, e1, h1) = read_word-ok (length bs) h (omega arith) first in
    let s1 : Stream = skip size.width s in
    let here : gap (n + size.width) ≡ s1.count % 8 = unfold skip gap in omega (arith, first.room) in
    let next : Begins s1 (bytes_code (gap (n + size.width)) bs) =
      Begins-next size _ b (i64_code-lt (length bs) (omega arith)) in
    let (r2, e2, h2) =
      read_sized-ok bs h1 (subst (λ (t : ℕ). Begins s1 (bytes_code t bs)) here next) g in
    (
      r2,
      sized r r1 r2 bs short e1 e2,
      subst (λ t. Holds r2 t)
          (skip-skip size.width (s1.count % 8 + 8 * length bs) _ s
            (unfold bytes_code in omega (arith, here)))
          h2,
    )

-- The reader that `new` builds first.
abbrev unread : List ℕ → ℕ → BitReader
unread bs pad = record { bytes = bs; pos = 0; accum = 0; bits = 0; padding = pad }

unread-Holds :
    (bs : List ℕ) {v n : ℕ} (pad : ℕ)
    → IsStream bs v n
    → n < 2 ^ 32
    → Holds (unread bs pad) (record { value = v; count = n; padding = pad })
unread-Holds bs {v} {n} pad s small = record {
  place = record {
    are_bytes = s.are_bytes;
    in_range = omega arith;
    fits = omega arith;
    count_is = omega (arith, s.count_is);
    small = small;
    ahead = let one : v / 2 ^ 0 ≡ v = omega arith in one ∙ sym s.value_is;
    padding_is = refl;
  };
  loads = λ more. absurd (omega (arith, more));
}

-- It loads at least the three bits that it skips.
begun :
    (bs : List ℕ) {v n : ℕ} (pad : ℕ)
    → IsStream bs v n
    → n < 2 ^ 32
    → 3 ≤ n
    → Holds
        (consume_unchecked 3 (refill (unread bs pad)))
        (skip 3 (record { value = v; count = n; padding = pad }))
begun bs pad s small three =
    let (f, loaded) = refill-IsFresh (unread-Holds bs pad s small) (omega arith) in
    elim loaded [
      | inl much ↦ consume-Holds 3 (IsFresh-Holds f) (omega (arith, much)) (omega arith)
      | inr all ↦ consume-Holds 3 (IsFresh-Holds f) (omega (arith, all, three)) (omega arith)
    ]

-- `new` is at the first bit behind the count of padding bits.
pub new-Holds :
    (bs : List ℕ) {v n : ℕ} (pad : ℕ)
    → IsStream bs (v * 8 + pad) (n + pad)
    → pad < 8
    → 3 ≤ n
    → n + pad < 2 ^ 32
    → (r : BitReader) × (new bs ≡ ok r)
      × Holds r (record { value = v; count = n + pad - 3; padding = pad })
unfolding new le_num skip
new-Holds [] pad s lt three small = absurd (omega (arith, s.count_is))
new-Holds (b ∷ bs) {v} {n} pad s lt three small =
    let low : bit_and b 7 ≡ pad = bit_and_mask 3 b ∙ omega (arith, s.value_is) in
    let whole : (v * 8 + pad) / 2 ^ 3 ≡ v = omega arith in
    (
      consume_unchecked 3 (refill (unread (b ∷ bs) pad)),
      rw (low, le→ltb {a = length (b ∷ bs) * 8} {b = 3 + pad} (omega (arith, s.count_is))),
      rw whole at (begun (b ∷ bs) pad s small (omega arith)),
    )
