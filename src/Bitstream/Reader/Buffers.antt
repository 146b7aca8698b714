-- ===== src/Bitstream/Reader/Buffers.antt =====
-- `align_to_byte` and `read_buffer` on a stream that begins with an encoded buffer.
use msdelta.Base.{
  ℕ, ◌+◌, ◌-◌, ◌*◌, ◌/◌, ◌%◌, ◌^◌, ◌≤◌, ◌<◌, ◌≡◌, inl, inr, refl, ap, sym, ◌∙◌, arith, min, List,
  [], ◌∷◌, ◌++◌, length, take, drop, length-take, length-drop, drop-drop, All-take, All-drop,
  append_assoc, append-nil, bit_and, le_cases, eq_cases, ne→==, le→leb, lt→leb, lt→ltb, le→ltb,
}
use msdelta.Base.Bits.{two-pow-add, two-pow-pos, bit_and_mask, div-two-pow-add}
use msdelta.Base.Bytes.{
  AreBytes, IsByte, le_num, le_num-take, le_num-drop, le_num-lt, byte_pow, le_bytes-le_num,
}
use msdelta.Errors.{ok}
use msdelta.Bitstream.Stream.{Stream, skip, front}
use msdelta.Bitstream.Code.{bytes_code}
use msdelta.Bitstream.Reader.{
  BitReader, consume_unchecked, align_to_byte, drain, copy_bulk, read_sized, remaining,
}
use msdelta.Bitstream.Reader.Holds.{Holds}
use msdelta.Bitstream.Reader.Reads.{consume-Holds, low_bits, skip-skip, skip-zero}
use msdelta.Bitstream.Reader.Numbers.{Begins, remaining_lem, low_part, high_part}

-- A reader aligned to a byte is at the next byte of its stream.
pub align-Holds :
    {r : BitReader} {s : Stream}
    → Holds r s
    → Holds (align_to_byte r) (skip (s.count % 8) s) × ((align_to_byte r).bits % 8 ≡ 0)
unfolding align_to_byte
align-Holds {r} {s} h =
    let same : r.bits % 8 ≡ s.count % 8 = omega (arith, h.place.count_is) in
    rw same (elim (eq_cases (s.count % 8) 0) [
      | inl z ↦ rw (le→ltb {a = 0} {b = s.count % 8} (omega arith), z, skip-zero s) (h, omega arith)
      | inr n ↦ rw (lt→ltb {a = 0} {b = s.count % 8} (omega arith)) (
        consume-Holds (s.count % 8) h (omega arith) (omega arith),
        unfold consume_unchecked in omega (arith, same),
      )
    ])

-- Byte strings of one length that stand for one number are one.
pub le_num-injective :
    (xs ys : List ℕ)
    → AreBytes xs
    → AreBytes ys
    → length xs ≡ length ys
    → le_num xs ≡ le_num ys
    → xs ≡ ys
le_num-injective xs ys hx hy e d = sym (le_bytes-le_num xs hx) ∙ rw (e, d) (le_bytes-le_num ys hy)

-- The reader behind `n` bytes that it took past an empty accumulator.
bulk-Holds :
    {r : BitReader} {s : Stream} (n : ℕ)
    → Holds r s
    → r.bits ≡ 0
    → 8 * n ≤ s.count
    → Holds (record r { pos = r.pos + n }) (skip (8 * n) s)
unfolding skip
bulk-Holds {r} {s} n h e room = record {
  place = record {
    are_bytes = h.place.are_bytes;
    in_range = omega (arith, h.place.count_is, h.place.in_range);
    fits = h.place.fits;
    count_is = omega (arith, h.place.count_is, h.place.in_range, e);
    small = omega (arith, h.place.small);
    ahead =
        rw (← div-two-pow-add s.value (8 * n) r.bits, ← drop-drop r.pos n _ r.bytes refl)
          (ap (λ (t : ℕ). s.value / 2 ^ t) (omega arith)
            ∙ div-two-pow-add s.value r.bits (8 * n)
            ∙ rw h.place.ahead
                (sym (le_num-drop n _ (All-drop IsByte r.pos r.bytes h.place.are_bytes))));
    padding_is = h.place.padding_is;
  };
  loads = λ more. absurd (omega (arith, e));
}

-- The copy of what the accumulator does not hold, where it holds nothing.
copy_bulk-ok :
    {r : BitReader} {s : Stream} (bs buf : List ℕ) (rest : ℕ)
    → Holds r s
    → r.bits ≡ 0
    → AreBytes bs
    → s.value ≡ le_num bs + 2 ^ (8 * length bs) * rest
    → 8 * length bs ≤ s.count
    → (r' : BitReader) × (copy_bulk (buf, length bs, r) ≡ ok (buf ++ bs, r'))
      × Holds r' (skip (8 * length bs) s)
unfolding copy_bulk
copy_bulk-ok {r} {s} bs buf rest h e b value room = (
  record r { pos = r.pos + length bs },
  rw (whole, same, le→ltb {a = 0} {b = length bs - length bs} (omega arith)),
  moved,
)
  where
    whole : min (length bs) (length r.bytes - r.pos) ≡ length bs
    whole = omega (arith, h.place.count_is, e)

    at_value : s.value ≡ le_num (drop r.pos r.bytes)
    at_value =
        let one : s.value / 2 ^ r.bits ≡ s.value = rw e (omega arith) in sym one ∙ h.place.ahead

    inside : AreBytes (drop r.pos r.bytes)
    inside = All-drop IsByte r.pos r.bytes h.place.are_bytes

    same : take (length bs) (drop r.pos r.bytes) ≡ bs
    same =
        le_num-injective _ bs (All-take IsByte (length bs) _ inside) b
          (omega (
            arith,
            length-take (length bs) (drop r.pos r.bytes),
            length-drop r.pos r.bytes,
            h.place.count_is,
            e,
          ))
          (le_num-take (length bs) _ inside
            ∙ rw (← at_value, value) (low_part (le_num bs) rest (8 * length bs) (le_num-lt bs b)))

    moved : Holds (record r { pos = r.pos + length bs }) (skip (8 * length bs) s)
    moved = bulk-Holds (length bs) h e room

copy_bulk-nil : (buf : List ℕ) (r : BitReader) → copy_bulk (buf, 0, r) ≡ ok (buf, r)
unfolding copy_bulk
copy_bulk-nil buf r =
    let none_ : min 0 (length r.bytes - r.pos) ≡ 0 = omega arith in
    let here : r.pos + 0 ≡ r.pos = omega arith in rw (none_, here, append-nil)

first_byte :
    (s : Stream) (x : ℕ) (xs : List ℕ) (rest : ℕ)
    → x < 256
    → s.value ≡ le_num (x ∷ xs) + 2 ^ (8 * length (x ∷ xs)) * rest
    → (front 8 s ≡ x) × ((skip 8 s).value ≡ le_num xs + 2 ^ (8 * length xs) * rest)
unfolding le_num skip
first_byte s x xs rest lt value =
    let split : s.value ≡ x + 2 ^ 8 * (le_num xs + 2 ^ (8 * length xs) * rest) =
      omega (arith, value, ap (λ (t : ℕ). t * rest) (byte_pow (length xs))) in
    (rw split (low_part x _ 8 (omega arith)), rw split (high_part x _ 8 (omega arith)))

-- One round of the drain that takes the byte `x`.
drain_round :
    (x : ℕ) (xs buf : List ℕ) (r r' : BitReader)
    → 8 ≤ r.bits
    → bit_and r.accum 0xff ≡ x
    → copy_bulk (drain (length xs) (consume_unchecked 8 r) (buf ++ (x ∷ [])))
      ≡ ok ((buf ++ (x ∷ [])) ++ xs, r')
    → copy_bulk (drain (length (x ∷ xs)) r buf) ≡ ok (buf ++ (x ∷ xs), r')
unfolding drain
drain_round x xs buf r r' full taken out =
    rw (le→leb full, taken) (out ∙ ap (λ l. ok (l, r')) (append_assoc buf (x ∷ []) xs))

-- The two copies of `read_buffer` together take the bytes that come next.
drain-ok :
    (bs buf : List ℕ) {r : BitReader} {s : Stream} (rest : ℕ)
    → Holds r s
    → r.bits % 8 ≡ 0
    → AreBytes bs
    → s.value ≡ le_num bs + 2 ^ (8 * length bs) * rest
    → 8 * length bs ≤ s.count
    → (r' : BitReader) × (copy_bulk (drain (length bs) r buf) ≡ ok (buf ++ bs, r'))
      × Holds r' (skip (8 * length bs) s)
unfolding drain
drain-ok [] buf {r} {s} rest h e b value room =
    (r, copy_bulk-nil buf r ∙ rw append-nil, rw (skip-zero s) h)
drain-ok (x ∷ xs) buf {r} {s} rest h e b value room = elim (le_cases 8 r.bits) [
  | inr few ↦ rw (lt→leb few) (copy_bulk-ok (x ∷ xs) buf rest h (omega arith) b value room)
  | inl full ↦
      let (byte, next) = first_byte s x xs rest b.0 value in
      let taken : bit_and r.accum 0xff ≡ x =
        bit_and_mask 8 r.accum ∙ low_bits 8 h (omega arith) full ∙ byte in
      let (r', out, h') =
        drain-ok xs (buf ++ (x ∷ [])) rest (consume-Holds 8 h full (omega arith))
          (unfold consume_unchecked in omega arith) b.1 next (unfold skip in omega arith) in
      (
        r',
        drain_round x xs buf r r' full taken out,
        rw (← skip-skip 8 (8 * length xs) (8 * length (x ∷ xs)) s (omega arith)) h',
      )
]

-- The stream behind the zeros that align it.
bytes_next :
    (s : Stream) (g : ℕ) (bs : List ℕ) (b : Begins s (bytes_code g bs))
    → (skip g s).value ≡ le_num bs + 2 ^ (8 * length bs) * b.rest
unfolding skip bytes_code
bytes_next s g bs b =
    let split : s.value ≡ 0 + 2 ^ g * (le_num bs + 2 ^ (8 * length bs) * b.rest) =
      omega (arith, b.value_is, ap (λ (t : ℕ). b.rest * t) (two-pow-add g (8 * length bs))) in
    rw split (high_part 0 _ g (two-pow-pos g))

-- `read_buffer` behind its length.
pub read_sized-ok :
    {r : BitReader} {s : Stream} (bs : List ℕ)
    → Holds r s
    → Begins s (bytes_code (s.count % 8) bs)
    → AreBytes bs
    → (r' : BitReader) × (read_sized (length bs) r ≡ ok (bs, r'))
      × Holds r' (skip (s.count % 8 + 8 * length bs) s)
unfolding read_sized bytes_code
read_sized-ok {r} {s} [] h g b =
    let (h1, _) = align-Holds h in
    let here : s.count % 8 + 0 ≡ s.count % 8 = omega arith in
    (
      align_to_byte r,
      rw (le→ltb {a = remaining r / 8 + r.bits / 8 + 8} {b = 0} (omega arith)),
      rw here h1,
    )
read_sized-ok {r} {s} (x ∷ xs) h g b =
    let (h1, e) = align-Holds h in
    let enough : length (x ∷ xs) ≤ remaining r / 8 + r.bits / 8 + 8 =
      omega (arith, remaining_lem h, g.room) in
    let (r', out, h') =
      drain-ok (x ∷ xs) [] g.rest h1 e b (bytes_next s (s.count % 8) (x ∷ xs) g)
        (unfold skip in omega (arith, g.room)) in
    (
      r',
      rw (le→ltb enough, ne→== {a = length (x ∷ xs)} {b = 0} (omega arith), out),
      rw (← skip-skip (s.count % 8) (8 * length (x ∷ xs)) _ s refl) h',
    )
