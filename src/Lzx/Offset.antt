-- ===== src/Lzx/Offset.antt =====
-- src/lzx/encode.rs and src/lzx/decode.rs: the offset of a match, written and read.
use msdelta.Base.{
  ℕ, ◌+◌, ◌-◌, ◌^◌, ◌≤◌, ◌<◌, ◌≡◌, ◌≢◌, inl, inr, refl, sym, ap, ◌∙◌, arith, true, List, [], ◌∷◌,
  All, some, lt→ltb, le→ltb, lt→leb, le→leb, ne→==, le_cases, eq_cases,
}
use msdelta.Base.Bits.{two-pow_mono}
use msdelta.Errors.{ok}
use msdelta.Base.Int.{ℤ}
use msdelta.Bitstream.Reader.{BitReader}
use msdelta.Bitstream.Fields.{Field, IsValid}
use msdelta.Bitstream.Fields.At.{At}
use msdelta.Huffman.Reading.{HasCode}
use msdelta.Huffman.Coder.{IsCoder}
use msdelta.Lzx.Ops.{source_copy_raw, lru_base_raw, raw_offset_base}
use msdelta.Lzx.Symbols.{
  SegmentTables, decode_extra_value, decode_distance, decode_far, decode_offset,
}
use msdelta.Lzx.Matches.{
  half_of, slot_extra, found_slot, far_slot, signed_slot, near_extra, offset_parts, aligned_of,
  info_of, compute_symbol_info,
}
use msdelta.Lzx.Slots.{search_slot-finds}
use msdelta.Lzx.Near.{signed, near-Gives, near_extra-fits}
use msdelta.Lzx.Far.{extra_fields, far_gives, far_fields-IsValid}

-- The symbols of aligned bits that an offset needs have codes.
abbrev pub HasAligned : SegmentTables → ℕ → Type 0
HasAligned tables raw =
    (compute_symbol_info raw).2 ≡ true → HasCode tables.aligned.lengths (aligned_of raw)

-- How an offset is written, and that it is read back.
pub record IsOffset (tables : SegmentTables) (raw : ℕ) : Type 0 where
  pub slot : ℕ
  pub extras : List (ℕ × ℕ)
  pub parts_are : offset_parts raw ≡ ok (slot, extras)
  pub counted : (compute_symbol_info raw).0 ≡ slot
  pub slot_lt : slot < 71
  pub fields-IsValid :
      (fs : List Field) → All IsValid fs → All IsValid (extra_fields tables.aligned raw extras fs)
  pub gives :
      (r : BitReader) (fs : List Field)
      → At r (extra_fields tables.aligned raw extras fs)
      → (r' : BitReader) × (decode_offset tables slot r ≡ ok (raw, r')) × At r' fs

signed_slot-lt : (d : ℤ) → signed_slot d < 71
signed_slot-lt d = ground arith

slot_counted : (adj : ℕ) → (info_of (some adj)).0 ≡ adj + 7
unfolding info_of
slot_counted adj = elim (le_cases 4 (half_of adj)) [
  | inl long ↦ rw (le→ltb long) refl
  | inr short ↦ rw (lt→ltb short) refl
]

module _ (tables : SegmentTables) (coder : IsCoder tables.aligned) (raw : ℕ) where
  -- The offsets that are their slot.
  named :
      (slot : ℕ)
      → 3 ≤ slot
      → slot < 7
      → slot + 0x5_3ffd ≡ raw
      → offset_parts raw ≡ ok (slot, [])
      → (compute_symbol_info raw).0 ≡ slot
      → IsOffset tables raw
  unfolding extra_fields decode_offset
  named slot lo hi is parts info = record {
    slot = slot;
    extras = [];
    parts_are = parts;
    counted = info;
    slot_lt = omega (arith, hi);
    fields-IsValid = λ fs h. h;
    gives = λ r fs a. (r, rw (le→ltb lo, lt→ltb hi) (ap (λ (t : ℕ). ok (t, r)) is), a);
  }

  source_copied : raw ≡ source_copy_raw → IsOffset tables raw
  unfolding offset_parts compute_symbol_info
  source_copied e = named 3 (omega arith) (omega arith) (sym e) (rw e refl) (rw e refl)

  recent : lru_base_raw ≤ raw → raw < lru_base_raw + 3 → IsOffset tables raw
  unfolding offset_parts compute_symbol_info
  recent lo hi =
      let other : raw ≢ source_copy_raw = omega (arith, lo) in
      named (raw - 0x5_3ffd) (omega (arith, lo)) (omega (arith, hi)) (omega (arith, lo))
        (rw (ne→== other, le→leb lo, lt→ltb hi) refl) (rw (ne→== other, le→leb lo, lt→ltb hi) refl)

  near : raw < source_copy_raw → IsOffset tables raw
  unfolding offset_parts compute_symbol_info extra_fields IsValid
  near h =
      let other : raw ≢ source_copy_raw = omega (arith, h) in
      let early : raw < lru_base_raw = omega (arith, h) in
      let before : raw < raw_offset_base = omega (arith, h) in
      let v : ℕ = (near_extra (signed raw)).0 in
      let k : ℕ = (near_extra (signed raw)).1 in
      let (some_, narrow, fits) = near_extra-fits raw h in
      let plain_ : v ≢ 2 ^ 64 - 1 = omega (arith, fits, two-pow_mono k 18 narrow) in
      record {
        slot = signed_slot (signed raw);
        extras = near_extra (signed raw) ∷ [];
        parts_are = rw (ne→== other, lt→leb early, lt→leb before) refl;
        counted = rw (ne→== other, lt→leb early, lt→leb before) refl;
        slot_lt = signed_slot-lt (signed raw);
        fields-IsValid =
            λ fs valid. rw (ne→== plain_, lt→ltb some_) ((omega (arith, narrow), fits), valid);
        gives = λ r fs a. near-Gives tables raw h r fs (rw (ne→== plain_, lt→ltb some_) at a);
      }

  module _ (far : lru_base_raw + 3 ≤ raw) where
    abbrev dist : ℕ
    dist = raw - raw_offset_base

    few : dist ≤ 3 → IsOffset tables raw
    unfolding offset_parts compute_symbol_info far_slot extra_fields decode_offset decode_far
        decode_extra_value decode_distance
    few h =
        let other : raw ≢ source_copy_raw = omega (arith, far) in
        let late : lru_base_raw ≤ raw = omega (arith, far) in
        let base_le : raw_offset_base ≤ raw = omega (arith, far) in
        let some_ : 0 < dist = omega (arith, far) in
        let nonzero : dist ≢ 0 = omega (arith, some_) in
        let same : dist + 7 - 7 ≡ dist = omega arith in
        let back : dist + raw_offset_base ≡ raw = omega (arith, base_le) in
        let fits : dist ≤ 63 = omega (arith, h) in
        let small : raw < 2 ^ 32 = omega (arith, h, back) in
        let above : 3 ≤ dist + 7 = omega arith in
        let beyond : 7 ≤ dist + 7 = omega arith in
        record {
          slot = dist + 7;
          extras = [];
          parts_are =
              rw (ne→== other, le→leb late, le→ltb far, le→leb base_le, ne→== nonzero, le→leb h)
                refl;
          counted = rw (ne→== other, le→leb late, le→ltb far, le→leb base_le, le→leb h) refl;
          slot_lt = omega (arith, h);
          fields-IsValid = λ fs valid. valid;
          gives = λ r fs a. (
            r,
            rw
                (
                  le→ltb above,
                  le→ltb beyond,
                  same,
                  lt→ltb some_,
                  le→ltb fits,
                  le→leb h,
                  back,
                  lt→leb small,
                )
                refl,
            a,
          );
        }

    many : 3 < dist → raw < 2 ^ 32 → HasAligned tables raw → IsOffset tables raw
    unfolding offset_parts compute_symbol_info far_slot found_slot info_of decode_offset
    many h k has =
        let other : raw ≢ source_copy_raw = omega (arith, far) in
        let late : lru_base_raw ≤ raw = omega (arith, far) in
        let base_le : raw_offset_base ≤ raw = omega (arith, far) in
        let nonzero : dist ≢ 0 = omega (arith, h) in
        let back : raw ≡ dist + raw_offset_base = omega (arith, base_le) in
        let small : dist < 2 ^ 32 = omega (arith, k) in
        let (adj, found, lo, hi, is_in) =
          search_slot-finds 60 4 dist (omega arith) (omega (arith, h)) (omega (arith, small)) in
        let same : adj + 7 - 7 ≡ adj = omega arith in
        let above : 3 ≤ adj + 7 = omega arith in
        let beyond : 7 ≤ adj + 7 = omega arith in
        let info : compute_symbol_info raw ≡ info_of (some adj) =
          rw (ne→== other, le→leb late, le→ltb far, le→leb base_le, lt→leb h, found) refl in
        let has' : 4 ≤ half_of adj → HasCode tables.aligned.lengths (aligned_of raw) =
          λ long. has (ap (λ t. t.2) info ∙ rw (le→ltb long) refl) in
        record {
          slot = adj + 7;
          extras = slot_extra adj dist;
          parts_are =
              rw
                (
                  ne→== other,
                  le→leb late,
                  le→ltb far,
                  le→leb base_le,
                  ne→== nonzero,
                  lt→leb h,
                  found,
                )
                refl;
          counted = ap (λ t. t.0) info ∙ slot_counted adj;
          slot_lt = omega (arith, hi);
          fields-IsValid = λ fs valid.
              far_fields-IsValid tables coder adj dist raw is_in small back fs (omega (arith, hi))
                has' valid;
          gives = λ r fs a.
              rw (le→ltb above, le→ltb beyond, same)
                (far_gives tables coder adj dist raw is_in small back r fs lo (omega (arith, hi)) k
                  has' a);
        }

pub offset :
    (tables : SegmentTables) (raw : ℕ)
    → IsCoder tables.aligned
    → raw < 2 ^ 32
    → HasAligned tables raw
    → IsOffset tables raw
offset tables raw coder fits has = elim (le_cases source_copy_raw raw) [
  | inr below ↦ near tables coder raw below
  | inl above ↦ elim (eq_cases raw source_copy_raw) [
    | inl same ↦ source_copied tables coder raw same
    | inr more ↦ elim (le_cases (lru_base_raw + 3) raw) [
      | inr queue ↦ recent tables coder raw (omega (arith, above, more)) queue
      | inl far ↦ elim (le_cases (raw - raw_offset_base) 3) [
        | inl h ↦ few tables coder raw far h
        | inr h ↦ many tables coder raw far h fits has
      ]
    ]
  ]
]
