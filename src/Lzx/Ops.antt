-- ===== src/Lzx/Ops.antt =====
-- src/lzx/ops.rs: the offset of a copy and its number on the wire.
use msdelta.Base.{
  ℕ, suc, ◌+◌, ◌-◌, ◌%◌, ◌^◌, ◌<◌, ◌≡◌, refl, arith, ◌&&◌, not, ltb, leb, ◌==◌, if◌then◌else◌,
  ne→==, lt→ltb, le→ltb, lt→leb, le→leb,
}
use msdelta.Base.Int.{
  ℤ, pos, negsuc, ◌+ℤ◌, ◌-ℤ◌, as_u32, as_u64, ltb_ℤ, balance-injective, +ℤ-balance, -ℤ-balance,
}
use native.Mathlib.Nat.{add-sub_cancel}

pub data CopyOffset : Type 0 where
  source_copy : CopyOffset
  lru : ℕ → CopyOffset
  distance : ℤ → CopyOffset

pub data MatchOp : Type 0 where
  literal : ℕ → MatchOp
  copy : (offset : CopyOffset) (length : ℕ) → MatchOp

abbrev pub source_copy_raw : ℕ
source_copy_raw = 0x5_4000

abbrev pub lru_base_raw : ℕ
lru_base_raw = 0x5_4001

abbrev pub raw_offset_base : ℕ
raw_offset_base = 0x5_4003

abbrev pub offset_bias : ℕ
offset_bias = 0x2_a000

unfoldable pub from_raw : ℕ → CopyOffset
from_raw raw =
    if raw == source_copy_raw
    then source_copy
    else if leb lru_base_raw raw && ltb raw (lru_base_raw + 3)
    then lru (raw - lru_base_raw)
    else if leb raw_offset_base raw
    then distance (pos (raw - raw_offset_base))
    else distance (pos raw -ℤ pos offset_bias)

-- A sum in u32 wraps.
unfoldable pub to_raw : CopyOffset → ℕ
to_raw source_copy = source_copy_raw
to_raw (lru idx) = (lru_base_raw + idx) % 2 ^ 32
to_raw (distance dist) =
    if not (ltb_ℤ dist (pos 0))
    then (as_u32 dist + raw_offset_base) % 2 ^ 32
    else as_u32 (dist +ℤ pos offset_bias)

-- The offsets that a number of 32 bits stands for, without a distance of 0. The number 0x2a000 is read
-- as that distance, but it is written with the number of the queue's last entry, as which it is read
-- back.
unfoldable pub IsWire : CopyOffset → Type 0
IsWire source_copy = Unit
IsWire (lru idx) = idx < 3
IsWire (distance (pos n)) = (0 < n) × (n + raw_offset_base < 2 ^ 32)
IsWire (distance (negsuc n)) = n < offset_bias

from_far : (n : ℕ) → 0 < n → from_raw (n + raw_offset_base) ≡ distance (pos n)
unfolding from_raw
from_far n more =
    let back : n + raw_offset_base - raw_offset_base ≡ n = add-sub_cancel n raw_offset_base in
    rw (
      ne→== {a = n + raw_offset_base} {b = source_copy_raw} (omega arith),
      le→leb {a = lru_base_raw} {b = n + raw_offset_base} (omega arith),
      le→ltb {a = n + raw_offset_base} {b = lru_base_raw + 3} (omega arith),
      le→leb {a = raw_offset_base} {b = n + raw_offset_base} (omega arith),
      back,
    )

from_recent : (idx : ℕ) → idx < 3 → from_raw (lru_base_raw + idx) ≡ lru idx
unfolding from_raw
from_recent idx h =
    let back : lru_base_raw + idx - lru_base_raw ≡ idx = omega arith in
    rw (
      ne→== {a = lru_base_raw + idx} {b = source_copy_raw} (omega arith),
      le→leb {a = lru_base_raw} {b = lru_base_raw + idx} (omega arith),
      lt→ltb {a = lru_base_raw + idx} {b = lru_base_raw + 3} (omega arith),
      back,
    )

from_near : (raw : ℕ) → raw < source_copy_raw → from_raw raw ≡ distance (pos raw -ℤ pos offset_bias)
unfolding from_raw
from_near raw h = rw (
  ne→== {a = raw} {b = source_copy_raw} (omega arith),
  lt→leb {a = lru_base_raw} {b = raw} (omega arith),
  lt→leb {a = raw_offset_base} {b = raw} (omega arith),
)

word : (n : ℕ) → n < 2 ^ 32 → as_u32 (pos n) ≡ n
unfolding as_u32 as_u64
word n h = omega (arith, h)

-- Every offset is read back from its number: the source copy, the three entries of the queue, and
-- each distance other than 0 from -0x2a000 up to the last whose number fits 32 bits.
pub from_raw-to_raw : (o : CopyOffset) → IsWire o → from_raw (to_raw o) ≡ o
unfolding to_raw IsWire
from_raw-to_raw source_copy h = unfold from_raw in refl
from_raw-to_raw (lru idx) h =
    let fits : (lru_base_raw + idx) % 2 ^ 32 ≡ lru_base_raw + idx = omega (arith, h) in
    rw fits (from_recent idx h)
from_raw-to_raw (distance (pos n)) h =
    let fits : (n + raw_offset_base) % 2 ^ 32 ≡ n + raw_offset_base = omega (arith, h.1) in
    rw (le→ltb {a = n + 0} {b = 0} (omega arith), word n (omega (arith, h.1)), fits)
      (from_far n h.0)
from_raw-to_raw (distance (negsuc n)) h =
    let sum : negsuc n +ℤ pos offset_bias ≡ pos (offset_bias - n - 1) =
      balance-injective _ _ (omega (arith, h, +ℤ-balance (negsuc n) (pos offset_bias))) in
    let back : pos (offset_bias - n - 1) -ℤ pos offset_bias ≡ negsuc n =
      balance-injective _ _
        (omega (arith, h, -ℤ-balance (pos (offset_bias - n - 1)) (pos offset_bias))) in
    rw (
      lt→ltb {a = 0} {b = 0 + suc n} (omega arith),
      sum,
      word (offset_bias - n - 1) (omega arith),
      from_near (offset_bias - n - 1) (omega arith),
      back,
    )
