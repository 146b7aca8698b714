-- ===== src/Bsdiff/Control.antt =====
-- src/bsdiff/mod.rs: the control values, a magnitude of 63 bits with a sign.
use msdelta.Base.{
  ℕ, suc, ◌+◌, ◌-◌, ◌*◌, ◌/◌, ◌%◌, ◌^◌, ◌<◌, ◌≡◌, refl, ap, ◌∙◌, arith, bit_and, bit_or, Bool, true,
  false, not, List, [], ◌∷◌, ◌++◌, length, get_or, ltb, ◌==◌, if◌then◌else◌, le→ltb, lt→ltb, lt→leb,
}
use msdelta.Base.Int.{ℤ, pos, negsuc, as_u64, ltb_ℤ, sub_ℕ}
use msdelta.Base.Bits.{bit_and_mask}
use msdelta.Base.Bits.Or.{bit_or_disjoint_left, bit_or_byte}
use msdelta.Base.Table.{agree→eq}
use msdelta.Base.Bytes.{AreBytes, le_bytes}
use msdelta.Errors.{truncated}
use msdelta.Errors.{Result, ok, err}

-- `-(val as i64)` and `val as i64` of a number below 2^63.
unfoldable pub with_sign : Bool → ℕ → ℤ
with_sign sign val = if sign then sub_ℕ 0 val else pos val

unfoldable pub magnitude : List ℕ → ℕ
magnitude bytes =
    let b = λ (i : ℕ). get_or bytes i 0 in
    bit_or
      (bit_or
        (bit_or
          (bit_or (bit_or (bit_or (bit_and (b 7) 0x7F * 2 ^ 48) (b 6 * 2 ^ 40)) (b 5 * 2 ^ 32))
            (b 4 * 2 ^ 24))
          (b 3 * 2 ^ 16))
        (b 2 * 2 ^ 8))
      (b 1)

unfoldable pub read_i64 : List ℕ → Result ℤ
read_i64 bytes =
    let sign = not (bit_and (get_or bytes 7 0) 0x80 == 0) in
    let val = magnitude bytes * 256 + get_or bytes 0 0 in
    if ltb (length bytes) 8 then err truncated else ok (with_sign sign val)

-- The magnitude that `write_i64` computes, with the sign.
unfoldable pub split_sign : ℤ → ℕ × Bool
split_sign val =
    if ltb_ℤ val (pos 0) then ((2 ^ 64 - as_u64 val) % 2 ^ 64, true) else (as_u64 val, false)

-- The eight bytes that `write_i64` pushes.
unfoldable pub write_i64 : ℤ → List ℕ
write_i64 val =
    let (mag, sign) = split_sign val in
    le_bytes 7 mag ++ (bit_or (bit_and (mag / 2 ^ 56) 0x7F) (if sign then 0x80 else 0) ∷ [])

low_or : (h : ℕ) → h < 128 → bit_or h 0x80 ≡ h + 128
low_or = agree→eq (λ h. bit_or h 0x80) (λ h. h + 128) 128 refl

low_or_zero : (h : ℕ) → h < 128 → bit_or h 0 ≡ h
low_or_zero = agree→eq (λ h. bit_or h 0) (λ h. h) 128 refl

sign_bit : (b : ℕ) → b < 256 → bit_and b 0x80 ≡ b / 128 * 128
sign_bit = agree→eq (λ b. bit_and b 0x80) (λ b. b / 128 * 128) 256 refl

magnitude_lem :
    (b0 b1 b2 b3 b4 b5 b6 b7 : ℕ) (rest : List ℕ)
    → AreBytes (b1 ∷ b2 ∷ b3 ∷ b4 ∷ b5 ∷ b6 ∷ b7 ∷ [])
    → magnitude (b0 ∷ b1 ∷ b2 ∷ b3 ∷ b4 ∷ b5 ∷ b6 ∷ b7 ∷ rest)
      ≡ (((((b7 % 128 * 256 + b6) * 256 + b5) * 256 + b4) * 256 + b3) * 256 + b2) * 256 + b1
unfolding magnitude
magnitude_lem b0 b1 b2 b3 b4 b5 b6 b7 rest h =
    let (l1, (l2, (l3, (l4, (l5, (l6, _)))))) = h in
    let q6 : ℕ = b7 % 128 * 256 + b6 in
    let q5 : ℕ = q6 * 256 + b5 in
    let q4 : ℕ = q5 * 256 + b4 in
    let q3 : ℕ = q4 * 256 + b3 in
    let q2 : ℕ = q3 * 256 + b2 in
    let one : q2 * 2 ^ 8 ≡ q2 * 256 = refl in
    rw
      (
        bit_and_mask 7 b7,
        bit_or_byte (b7 % 128) 40 b6 l6,
        bit_or_byte q6 32 b5 l5,
        bit_or_byte q5 24 b4 l4,
        bit_or_byte q4 16 b3 l3,
        bit_or_byte q3 8 b2 l2,
      )
      (bit_or_disjoint_left 8 q2 b1 l1)

-- The values with a magnitude of 63 bits: all of i64 but its least.
abbrev pub HasMagnitude : ℤ → Type 0
HasMagnitude (pos n) = n < 2 ^ 63
HasMagnitude (negsuc n) = n + 1 < 2 ^ 63

-- The bytes of a magnitude, its highest with the sign.
signed_bytes : ℕ → ℕ → List ℕ → List ℕ
signed_bytes m top rest = le_bytes 7 m ++ (top ∷ rest)

whole_bytes :
    (m top : ℕ)
    → top < 256
    → AreBytes (
        m / 256 % 256
        ∷ m / 256 / 256 % 256
        ∷ m / 256 / 256 / 256 % 256
        ∷ m / 256 / 256 / 256 / 256 % 256
        ∷ m / 256 / 256 / 256 / 256 / 256 % 256
        ∷ m / 256 / 256 / 256 / 256 / 256 / 256 % 256
        ∷ top
        ∷ [])
whole_bytes m top lt = (
  omega arith,
  (omega arith, (omega arith, (omega arith, (omega arith, (omega arith, (lt, tt)))))),
)

read_signed :
    (m top : ℕ) (sign : Bool) (rest : List ℕ)
    → m < 2 ^ 63
    → top ≡ m / 2 ^ 56 + (if sign then 128 else 0)
    → read_i64 (signed_bytes m top rest) ≡ ok (with_sign sign m)
unfolding read_i64 signed_bytes le_bytes
read_signed m top true rest lt e =
    let byte : bit_and top 0x80 ≡ 128 = sign_bit top (omega arith) ∙ omega arith in
    rw
      (
        le→ltb {a = length (signed_bytes m top rest)} {b = 8} (omega arith),
        magnitude_lem _ _ _ _ _ _ _ top rest (whole_bytes m top (omega arith)),
        byte,
      )
      (ap (λ (t : ℕ). ok (with_sign true t)) (omega arith))
read_signed m top false rest lt e =
    let byte : bit_and top 0x80 ≡ 0 = sign_bit top (omega arith) ∙ omega arith in
    rw
      (
        le→ltb {a = length (signed_bytes m top rest)} {b = 8} (omega arith),
        magnitude_lem _ _ _ _ _ _ _ top rest (whole_bytes m top (omega arith)),
        byte,
      )
      (ap (λ (t : ℕ). ok (with_sign false t)) (omega arith))

split-pos : (n : ℕ) → n < 2 ^ 63 → split_sign (pos n) ≡ (n, false)
unfolding split_sign as_u64
split-pos n h =
    let word : n % 2 ^ 64 ≡ n = omega arith in rw (le→ltb {a = n + 0} {b = 0} (omega arith), word)

split-negsuc : (n : ℕ) → n + 1 < 2 ^ 63 → split_sign (negsuc n) ≡ (suc n, true)
unfolding split_sign as_u64
split-negsuc n h =
    let mag : (2 ^ 64 - (2 ^ 64 - 1 - n % 2 ^ 64)) % 2 ^ 64 ≡ suc n = omega arith in
    rw (lt→ltb {a = 0} {b = 0 + suc n} (omega arith), mag)

negative : (n : ℕ) → with_sign true (suc n) ≡ negsuc n
unfolding with_sign
negative n = rw (lt→leb {a = suc n} {b = 0} (omega arith)) (ap (λ (t : ℕ). negsuc t) (omega arith))

-- A control value other than the least i64, which has no magnitude of 63 bits, is read back from its
-- eight bytes, whatever follows them.
pub read_i64-write_i64 :
    (v : ℤ) (rest : List ℕ) → HasMagnitude v → read_i64 (write_i64 v ++ rest) ≡ ok v
unfolding write_i64 signed_bytes le_bytes with_sign
read_i64-write_i64 (pos n) rest h =
    let top : bit_or (bit_and (n / 2 ^ 56) 0x7F) 0 ≡ n / 2 ^ 56 + 0 =
      rw (bit_and_mask 7 (n / 2 ^ 56)) (low_or_zero _ (omega arith) ∙ omega arith) in
    rw (split-pos n h) (read_signed n _ false rest h top)
read_i64-write_i64 (negsuc n) rest h =
    let top : bit_or (bit_and (suc n / 2 ^ 56) 0x7F) 0x80 ≡ suc n / 2 ^ 56 + 128 =
      rw (bit_and_mask 7 (suc n / 2 ^ 56)) (low_or _ (omega arith) ∙ omega arith) in
    rw (split-negsuc n h) (read_signed (suc n) _ true rest (omega arith) top ∙ ap ok (negative n))

pub length-write_i64 : (v : ℤ) → length (write_i64 v) ≡ 8
unfolding write_i64 le_bytes
length-write_i64 v = refl
