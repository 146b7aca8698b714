-- ===== src/Bitstream/Reader/Holds.antt =====
-- The reader's refinement relation: `Holds r s` says that the reader `r` is at the stream `s`.
-- The accumulator may hold more of the stream than its `bits` count, up to `window`, and nothing
-- that is meant if it counts none.
use msdelta.Base.{
  ℕ, zero, suc, ◌+◌, ◌-◌, ◌*◌, ◌/◌, ◌%◌, ◌^◌, ◌≤◌, ◌<◌, ◌≡◌, ◌⊎◌, inl, inr, refl, ap, sym, ◌∙◌,
  arith, max, length, take, drop, get_or, drop-get_or, All-drop, bit_or, drop-drop, eq_cases,
  le_cases, eq→==, ne→==, le→leb, lt→leb, lt→ltb, ◌∷◌,
}
use msdelta.Base.Bytes.{AreBytes, IsByte, le_num, le_num-take, le_num-drop}
use msdelta.Base.Bits.{two-pow_mono, div-two-pow-add, mod-mod_two-pow}
use msdelta.Bitstream.Words.{shl64}
use msdelta.Bitstream.Words.Laws.{load64}
use msdelta.Bitstream.Stream.{Stream}
use msdelta.Bitstream.Reader.{
  BitReader, refill_word, refill_bytes, clear_stale, refill_cleared, refill,
}
use native.Mathlib.Nat.{mod-eq_of_lt}

-- The place of the reader in its bytes.
pub record IsAt (r : BitReader) (s : Stream) : Type 0 where
  pub are_bytes : AreBytes r.bytes
  pub in_range : r.pos ≤ length r.bytes
  pub fits : r.bits ≤ 64
  pub count_is : s.count ≡ r.bits + 8 * (length r.bytes - r.pos)
  pub small : s.count < 2 ^ 32
  pub ahead : s.value / 2 ^ r.bits ≡ le_num (drop r.pos r.bytes)
  pub padding_is : r.padding ≡ s.padding

-- The accumulator holds the low `window` bits of the stream.
pub record Loads (r : BitReader) (s : Stream) : Type 0 where
  pub window : ℕ
  pub window_lo : r.bits ≤ window
  pub window_hi : window ≤ 64
  pub accum_is : r.accum ≡ s.value % 2 ^ window

pub record Holds (r : BitReader) (s : Stream) : Type 0 where
  pub place : IsAt r s
  pub loads : 0 < r.bits → Loads r s

-- `Holds` with an accumulator that is right even if it counts no bits.
pub record IsFresh (r : BitReader) (s : Stream) : Type 0 where
  pub place : IsAt r s
  pub loads : Loads r s

pub IsFresh-Holds : {r : BitReader} {s : Stream} → IsFresh r s → Holds r s
IsFresh-Holds f = record { place = f.place; loads = λ _. f.loads }

clear_stale-IsFresh : {r : BitReader} {s : Stream} → Holds r s → IsFresh (clear_stale r) s
unfolding clear_stale
clear_stale-IsFresh {r} {s} h = elim (eq_cases r.bits 0) [
  | inl e ↦ rw (eq→== e) (record {
    place = record {
      are_bytes = h.place.are_bytes;
      in_range = h.place.in_range;
      fits = h.place.fits;
      count_is = h.place.count_is;
      small = h.place.small;
      ahead = h.place.ahead;
      padding_is = h.place.padding_is;
    };
    loads = record {
      window = 0;
      window_lo = omega arith;
      window_hi = omega arith;
      accum_is = omega arith;
    };
  })
  | inr n ↦ rw (ne→== n) (record { place = h.place; loads = h.loads (omega arith) })
]

bits-clear_stale : (r : BitReader) → (clear_stale r).bits ≡ r.bits
unfolding clear_stale
bits-clear_stale r = ground arith

-- Moving `a` bytes into an accumulator with room for them.
module _ {r : BitReader} {s : Stream} (p : IsAt r s) (a acc : ℕ) where
  abbrev moved : BitReader
  moved = record r { accum = acc; pos = r.pos + a; bits = r.bits + a * 8 }

  moved-IsAt : r.pos + a ≤ length r.bytes → r.bits + a * 8 ≤ 64 → IsAt moved s
  moved-IsAt inside room = record {
    are_bytes = p.are_bytes;
    in_range = inside;
    fits = room;
    count_is = omega (arith, p.count_is);
    small = p.small;
    ahead = ahead';
    padding_is = p.padding_is;
  }
    where
      ahead' : s.value / 2 ^ (r.bits + a * 8) ≡ le_num (drop (r.pos + a) r.bytes)
      ahead' =
          rw (div-two-pow-add s.value r.bits (a * 8), p.ahead, ← drop-drop r.pos a _ r.bytes refl)
            (sym (
              le_num-drop a _ (All-drop IsByte r.pos _ p.are_bytes)
              ∙ ap (λ (t : ℕ). le_num (drop r.pos r.bytes) / 2 ^ t) (omega arith)))

-- What a load puts above the bits that the accumulator counts.
module _ {r : BitReader} {s : Stream} (f : IsFresh r s) (a t word : ℕ) where
  abbrev loading : BitReader
  loading = moved f.place a (bit_or r.accum (shl64 word r.bits))

  loading-IsFresh :
      r.pos + a ≤ length r.bytes
      → a * 8 ≤ t
      → r.bits + t ≤ 64
      → r.bits < 64
      → word % 2 ^ (64 - r.bits) ≡ s.value / 2 ^ r.bits % 2 ^ t
      → IsFresh loading s
  loading-IsFresh inside few room below e = record {
    place = moved-IsAt f.place a (bit_or r.accum (shl64 word r.bits)) inside (omega arith);
    loads = record {
      window = max f.loads.window (r.bits + t);
      window_lo = omega arith;
      window_hi = omega (arith, f.loads.window_hi);
      accum_is =
          rw f.loads.accum_is (
            load64 r.bits f.loads.window s.value word t f.loads.window_lo f.loads.window_hi below
              e);
    };
  }

refill_word-IsFresh :
    {r : BitReader} {s : Stream}
    → IsFresh r s
    → r.pos + 8 ≤ length r.bytes
    → r.bits < 64
    → IsFresh (refill_word r) s × (56 < (refill_word r).bits)
unfolding refill_word
refill_word-IsFresh {r} {s} f inside room = (
  loading-IsFresh f ((64 - r.bits) / 8) (64 - r.bits) _ (omega arith) (omega arith) (omega arith)
      room word,
  omega arith,
)
  where
    word :
        le_num (take 8 (drop r.pos r.bytes)) % 2 ^ (64 - r.bits)
        ≡ s.value / 2 ^ r.bits % 2 ^ (64 - r.bits)
    word =
        rw (le_num-take 8 _ (All-drop IsByte r.pos _ f.place.are_bytes), ← f.place.ahead)
          (mod-mod_two-pow _ (64 - r.bits) 64 (omega arith))

-- The byte at the reader's place is the stream's next byte.
next_byte :
    {r : BitReader} {s : Stream}
    → IsAt r s
    → r.pos < length r.bytes
    → get_or r.bytes r.pos 0 ≡ s.value / 2 ^ r.bits % 2 ^ 8
unfolding le_num
next_byte {r} {s} p h =
    let split : drop r.pos r.bytes ≡ get_or r.bytes r.pos 0 ∷ drop (suc r.pos) r.bytes =
      drop-get_or r.pos r.bytes 0 h in
    let whole : AreBytes (get_or r.bytes r.pos 0 ∷ drop (suc r.pos) r.bytes) =
      rw split at (All-drop IsByte r.pos _ p.are_bytes) in
    rw (p.ahead, split) (omega (arith, whole.0))

refill_bytes-IsFresh :
    (fuel : ℕ) {r : BitReader} {s : Stream}
    → IsFresh r s
    → fuel ≡ length r.bytes - r.pos
    → IsFresh (refill_bytes fuel r) s
      × ((56 < (refill_bytes fuel r).bits) ⊎ (s.count ≡ (refill_bytes fuel r).bits))
unfolding refill_bytes
refill_bytes-IsFresh zero {r} {s} f e = (f, inr (omega (arith, f.place.count_is, f.place.in_range)))
refill_bytes-IsFresh (suc fuel) {r} {s} f e = elim (le_cases r.bits 56) [
  | inr full ↦ rw (lt→leb full) (f, inl full)
  | inl room ↦
      rw (le→leb room, lt→ltb {a = r.pos} {b = length r.bytes} (omega arith))
        (refill_bytes-IsFresh fuel
          (loading-IsFresh f 1 8 (get_or r.bytes r.pos 0) (omega arith) (omega arith) (omega arith)
            (omega arith) (byte room))
          (omega arith))
]
  where
    byte : r.bits ≤ 56 → get_or r.bytes r.pos 0 % 2 ^ (64 - r.bits) ≡ s.value / 2 ^ r.bits % 2 ^ 8
    byte room =
        rw (next_byte f.place (omega arith))
          (mod-eq_of_lt (omega (arith, two-pow_mono 8 (64 - r.bits) (omega arith))))

refill_cleared-IsFresh :
    {r : BitReader} {s : Stream}
    → IsFresh r s
    → r.bits < 64
    → IsFresh (refill_cleared r) s
      × ((56 < (refill_cleared r).bits) ⊎ (s.count ≡ (refill_cleared r).bits))
unfolding refill_cleared
refill_cleared-IsFresh {r} {s} f room = elim (le_cases (r.pos + 8) (length r.bytes)) [
  | inl inside ↦
      let (f', full) = refill_word-IsFresh f inside room in rw (le→leb inside) (f', inl full)
  | inr near ↦ rw (lt→leb near) (refill_bytes-IsFresh _ f refl)
]

-- After `refill` of a reader that counts less than 64 bits, the reader is at the same stream, and it
-- counts more than 56 bits or all.
pub refill-IsFresh :
    {r : BitReader} {s : Stream}
    → Holds r s
    → r.bits < 64
    → IsFresh (refill r) s × ((56 < (refill r).bits) ⊎ (s.count ≡ (refill r).bits))
unfolding refill
refill-IsFresh {r} {s} h room =
    refill_cleared-IsFresh (clear_stale-IsFresh h) (omega (arith, bits-clear_stale r))
