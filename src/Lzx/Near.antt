-- ===== src/Lzx/Near.antt =====
-- src/lzx/encode.rs: the offsets around the place that the rift tables give.
use msdelta.Base.{ℕ, ◌-◌, ◌^◌, ◌≤◌, ◌<◌, ◌≡◌, inl, inr, ◌∙◌, arith, List, ◌∷◌, bit_and, le_cases}
use msdelta.Base.Bits.{bit_and_mask}
use msdelta.Base.Int.{ℤ, pos, ◌+ℤ◌, ◌-ℤ◌, as_u32, as_u64}
use msdelta.Lzx.Matches.{signed_slot, near_extra}
use native.Mathlib.Nat.{mod-eq_of_lt}
use msdelta.Lzx.Ops.{source_copy_raw, offset_bias}
use msdelta.Errors.{ok}
use msdelta.Bitstream.Reader.{BitReader, read_bits}
use msdelta.Bitstream.Fields.{Field, plain}
use msdelta.Bitstream.Fields.At.{At, next_plain}
use msdelta.Lzx.Symbols.{SegmentTables, decode_near, decode_offset}

abbrev pub signed : ℕ → ℤ
signed raw = pos raw -ℤ pos offset_bias

-- The slot of an offset and the bits behind it, by its number.
abbrev HasBits : ℕ → ℕ → ℕ → ℕ → Type 0
HasBits raw slot v k = (signed_slot (signed raw) ≡ slot) × (near_extra (signed raw) ≡ (v, k))

middle : (raw : ℕ) → 0x2_8000 ≤ raw → raw < 0x2_c000 → HasBits raw 0 (raw - 0x2_8000) 14
unfolding ◌-ℤ◌ ◌+ℤ◌ as_u32 as_u64 near_extra
middle raw h k = ground arith

lower : (raw : ℕ) → 0x2_0000 ≤ raw → raw < 0x2_8000 → HasBits raw 1 (raw - 0x2_0000) 16
unfolding ◌-ℤ◌ ◌+ℤ◌ as_u32 as_u64 near_extra
lower raw h k = ground arith

upper : (raw : ℕ) → 0x2_c000 ≤ raw → raw < 0x3_4000 → HasBits raw 1 (raw - 0x2_4000) 16
unfolding ◌-ℤ◌ ◌+ℤ◌ as_u32 as_u64 near_extra
upper raw h k = ground arith

low_18 : (v : ℕ) → v < 0x4_0000 → bit_and v 0x3_ffff ≡ v
low_18 v h = bit_and_mask 18 v ∙ mod-eq_of_lt h

lowest_ones : (raw : ℕ) → raw < 0x2_0000 → HasBits raw 2 raw 18
unfolding ◌-ℤ◌ ◌+ℤ◌ as_u32 as_u64 near_extra
lowest_ones raw h = ground (arith, low_18 raw (omega arith))

highest_ones :
    (raw : ℕ) → 0x3_4000 ≤ raw → raw < source_copy_raw → HasBits raw 2 (raw - 0x1_4000) 18
unfolding ◌-ℤ◌ ◌+ℤ◌ as_u32 as_u64 near_extra
highest_ones raw h k = ground (arith, low_18 (raw - 0x1_4000) (omega arith))

-- What reading the bits gives.
abbrev pub Gives : SegmentTables → ℕ → Type 0
Gives tables raw =
    (r : BitReader)
    → (fs : List Field) → At r (plain (near_extra (signed raw)).0 (near_extra (signed raw)).1 ∷ fs)
    → (r' : BitReader) × (decode_offset tables (signed_slot (signed raw)) r ≡ ok (raw, r'))
      × At r' fs

-- A read of the bits in a slot gives the offset.
abbrev Takes : SegmentTables → ℕ → ℕ → ℕ → ℕ → Type 0
Takes tables raw slot v k =
    (r r' : BitReader) → read_bits k r ≡ ok (v, r') → decode_offset tables slot r ≡ ok (raw, r')

module _ (tables : SegmentTables) (raw : ℕ) where
  gives : (slot v k : ℕ) → HasBits raw slot v k → Takes tables raw slot v k → Gives tables raw
  gives slot v k has takes r fs a =
      let (r', e, a1) = next_plain (rw (has.1) at a) in (r', rw (has.0) (takes r r' e), a1)

  low_14 : 0x2_8000 ≤ raw → raw < 0x2_c000 → bit_and (raw - 0x2_8000) 0x3fff ≡ raw - 0x2_8000
  low_14 h k = bit_and_mask 14 (raw - 0x2_8000) ∙ mod-eq_of_lt (omega arith)

  Takes-middle : 0x2_8000 ≤ raw → raw < 0x2_c000 → Takes tables raw 0 (raw - 0x2_8000) 14
  unfolding decode_offset decode_near ◌-ℤ◌ ◌+ℤ◌ as_u32 as_u64
  Takes-middle h k r r' e = rw (e, low_14 h k) (ground arith)

  Takes-lower : 0x2_0000 ≤ raw → raw < 0x2_8000 → Takes tables raw 1 (raw - 0x2_0000) 16
  unfolding decode_offset decode_near ◌-ℤ◌ ◌+ℤ◌ as_u32 as_u64
  Takes-lower h k r r' e = rw e (ground arith)

  Takes-upper : 0x2_c000 ≤ raw → raw < 0x3_4000 → Takes tables raw 1 (raw - 0x2_4000) 16
  unfolding decode_offset decode_near ◌-ℤ◌ ◌+ℤ◌ as_u32 as_u64
  Takes-upper h k r r' e = rw e (ground arith)

  Takes-lowest : raw < 0x2_0000 → Takes tables raw 2 raw 18
  unfolding decode_offset decode_near ◌-ℤ◌ ◌+ℤ◌ as_u32 as_u64
  Takes-lowest h r r' e = rw e (ground arith)

  Takes-highest : 0x3_4000 ≤ raw → raw < source_copy_raw → Takes tables raw 2 (raw - 0x1_4000) 18
  unfolding decode_offset decode_near ◌-ℤ◌ ◌+ℤ◌ as_u32 as_u64
  Takes-highest h k r r' e = rw e (ground arith)

-- The bits of an offset, which fit their count and are read back.
abbrev HasNear : ℕ → Type 0
HasNear raw =
    (slot : ℕ) × (v : ℕ) × (k : ℕ) × HasBits raw slot v k
    × (0 < k)
    × (k ≤ 18)
    × (v < 2 ^ k)
    × ((tables : SegmentTables) → Takes tables raw slot v k)

near : (raw : ℕ) → raw < source_copy_raw → HasNear raw
near raw h = elim (le_cases 0x2_0000 raw) [
  | inr a ↦ (
    2,
    raw,
    18,
    lowest_ones raw a,
    omega arith,
    omega arith,
    omega arith,
    λ t. Takes-lowest t raw a,
  )
  | inl a ↦ elim (le_cases 0x2_8000 raw) [
    | inr b ↦ (
      1,
      raw - 0x2_0000,
      16,
      lower raw a b,
      omega arith,
      omega arith,
      omega arith,
      λ t. Takes-lower t raw a b,
    )
    | inl b ↦ elim (le_cases 0x2_c000 raw) [
      | inr c ↦ (
        0,
        raw - 0x2_8000,
        14,
        middle raw b c,
        omega arith,
        omega arith,
        omega arith,
        λ t. Takes-middle t raw b c,
      )
      | inl c ↦ elim (le_cases 0x3_4000 raw) [
        | inr d ↦ (
          1,
          raw - 0x2_4000,
          16,
          upper raw c d,
          omega arith,
          omega arith,
          omega arith,
          λ t. Takes-upper t raw c d,
        )
        | inl d ↦ (
          2,
          raw - 0x1_4000,
          18,
          highest_ones raw d h,
          omega arith,
          omega arith,
          omega arith,
          λ t. Takes-highest t raw d h,
        )
      ]
    ]
  ]
]

pub near-Gives : (tables : SegmentTables) (raw : ℕ) → raw < source_copy_raw → Gives tables raw
near-Gives tables raw h =
    let (slot, v, k, has, some_, few, fits, takes) = near raw h in
    gives tables raw slot v k has (takes tables)

pub near_extra-fits :
    (raw : ℕ)
    → raw < source_copy_raw
    → (0 < (near_extra (signed raw)).1)
      × ((near_extra (signed raw)).1 ≤ 18)
      × ((near_extra (signed raw)).0 < 2 ^ (near_extra (signed raw)).1)
near_extra-fits raw h =
    let (slot, v, k, has, some_, few, fits, takes) = near raw h in rw (has.1) (some_, few, fits)
