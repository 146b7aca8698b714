-- ===== src/Base/Bytes.antt =====
-- Bytes, and the little-endian numbers that byte strings stand for (`from_le_bytes`,
-- `to_le_bytes`). The same reading of a whole buffer is the bit stream that it holds.
use msdelta.Base.Lists.{length, All, take, drop}
use msdelta.Base.Bits.{two-pow-add, mod-two-pow-add}
use Prim.Native.Nat.{ℕ, zero, suc, ◌+◌, ◌*◌, ◌/◌, ◌%◌, ◌^◌, ◌<◌}
use mathlib.Core.Path.{◌≡◌, refl, ap, sym}
use msdelta.Base.Tests.{ltb, ◌==◌, if◌then◌else◌, eq→==, ne→==, eq_cases, ltb→lt, Bool-cases}
use mathlib.Core.Bool.{Bool, true, false}
use mathlib.Core.Logic.{inl, inr}
use mathlib.Core.List.{List, [], ◌∷◌, ◌++◌}
use native.Mathlib.Nat.{div-div-eq-div-mul, zero-div, zero-mod}
use native.Mathlib.Omega.{arith}

abbrev pub IsByte : ℕ → Type 0
IsByte b = b < 256

abbrev pub AreBytes : List ℕ → Type 0
AreBytes = All IsByte

-- `uN::from_le_bytes`
unfoldable pub le_num : List ℕ → ℕ
le_num [] = 0
le_num (b ∷ bs) = b + 256 * le_num bs

-- `to_le_bytes` of a word of `n` bytes
unfoldable pub le_bytes : ℕ → ℕ → List ℕ
le_bytes zero v = []
le_bytes (suc n) v = (v % 256) ∷ le_bytes n (v / 256)

pub byte_pow : (n : ℕ) → 2 ^ (8 * suc n) ≡ 256 * 2 ^ (8 * n)
byte_pow n = let e : 8 * suc n ≡ 8 + 8 * n = omega arith in rw e (two-pow-add 8 (8 * n))

mod-byte_pow : (v n q : ℕ) → v / 256 ≡ q → v % 2 ^ (8 * suc n) ≡ v % 256 + 256 * (q % 2 ^ (8 * n))
mod-byte_pow v n q h =
    let e : 8 * suc n ≡ 8 + 8 * n = omega arith in rw (e, ← h) (mod-two-pow-add v 8 (8 * n))

pub le_num-lt : (xs : List ℕ) → AreBytes xs → le_num xs < 2 ^ (8 * length xs)
unfolding le_num
le_num-lt [] h = omega arith
le_num-lt (b ∷ bs) h = omega (arith, h.0, byte_pow (length bs), le_num-lt bs h.1)

pub le_num-append :
    (xs ys : List ℕ) → le_num (xs ++ ys) ≡ le_num xs + le_num ys * 2 ^ (8 * length xs)
unfolding le_num
le_num-append [] ys = omega arith
le_num-append (b ∷ bs) ys =
    omega (arith, le_num-append bs ys, ap (λ (t : ℕ). le_num ys * t) (byte_pow (length bs)))

pub le_num-drop : (n : ℕ) (xs : List ℕ) → AreBytes xs → le_num (drop n xs) ≡ le_num xs / 2 ^ (8 * n)
unfolding le_num
le_num-drop zero xs h = omega arith
le_num-drop (suc n) [] h = sym (zero-div (2 ^ (8 * suc n)))
le_num-drop (suc n) (b ∷ bs) h =
    let q : (b + 256 * le_num bs) / 256 ≡ le_num bs = omega (arith, h.0) in
    rw (byte_pow, ← div-div-eq-div-mul, q) (le_num-drop n bs h.1)

pub le_num-take : (n : ℕ) (xs : List ℕ) → AreBytes xs → le_num (take n xs) ≡ le_num xs % 2 ^ (8 * n)
unfolding le_num
le_num-take zero xs h = omega arith
le_num-take (suc n) [] h = sym (zero-mod (2 ^ (8 * suc n)))
le_num-take (suc n) (b ∷ bs) h = omega (
  arith,
  h.0,
  mod-byte_pow (b + 256 * le_num bs) n (le_num bs) (omega (arith, h.0)),
  le_num-take n bs h.1,
)

pub length-le_bytes : (n v : ℕ) → length (le_bytes n v) ≡ n
unfolding le_bytes
length-le_bytes zero v = refl
length-le_bytes (suc n) v = ap suc (length-le_bytes n (v / 256))

pub le_bytes-AreBytes : (n v : ℕ) → AreBytes (le_bytes n v)
unfolding le_bytes
le_bytes-AreBytes zero v = tt
le_bytes-AreBytes (suc n) v = (omega arith, le_bytes-AreBytes n (v / 256))

pub le_num-le_bytes : (n v : ℕ) → le_num (le_bytes n v) ≡ v % 2 ^ (8 * n)
unfolding le_bytes le_num
le_num-le_bytes zero v = omega arith
le_num-le_bytes (suc n) v =
    omega (arith, mod-byte_pow v n (v / 256) refl, le_num-le_bytes n (v / 256))

-- A byte string is the bytes of its number.
pub le_bytes-le_num : (xs : List ℕ) → AreBytes xs → le_bytes (length xs) (le_num xs) ≡ xs
unfolding le_bytes le_num
le_bytes-le_num [] h = refl
le_bytes-le_num (b ∷ bs) h =
    let lo : (b + 256 * le_num bs) % 256 ≡ b = omega (arith, h.0) in
    let hi : (b + 256 * le_num bs) / 256 ≡ le_num bs = omega (arith, h.0) in
    rw (lo, hi) (ap (λ t. b ∷ t) (le_bytes-le_num bs h.1))

-- `==` of two slices.
unfoldable pub eq_bytes : List ℕ → List ℕ → Bool
eq_bytes [] [] = true
eq_bytes [] (y ∷ ys) = false
eq_bytes (x ∷ xs) [] = false
eq_bytes (x ∷ xs) (y ∷ ys) = if x == y then eq_bytes xs ys else false

pub eq_bytes_refl : (xs : List ℕ) → eq_bytes xs xs ≡ true
unfolding eq_bytes
eq_bytes_refl [] = refl
eq_bytes_refl (x ∷ xs) = rw (eq→== {a = x} refl) (eq_bytes_refl xs)

pub eq_bytes→≡ : (xs ys : List ℕ) → eq_bytes xs ys ≡ true → xs ≡ ys
unfolding eq_bytes
eq_bytes→≡ [] [] e = refl
eq_bytes→≡ [] (y ∷ ys) e = cc
eq_bytes→≡ (x ∷ xs) [] e = cc
eq_bytes→≡ (x ∷ xs) (y ∷ ys) e = elim (eq_cases x y) [
  | inl same ↦
      let rest : eq_bytes xs ys ≡ true = rw (eq→== same) at e in
      λ i. same i ∷ eq_bytes→≡ xs ys rest i
  | inr other ↦ let no : false ≡ true = rw (ne→== other) at e in cc
]

-- A check that a list is of bytes.
abbrev pub are_bytes? : List ℕ → Bool
are_bytes? [] = true
are_bytes? (b ∷ bs) = if ltb b 256 then are_bytes? bs else false

pub are_bytes?-AreBytes : (bs : List ℕ) → are_bytes? bs ≡ true → AreBytes bs
are_bytes?-AreBytes [] e = tt
are_bytes?-AreBytes (b ∷ bs) e = elim (Bool-cases (ltb b 256)) [
  | inl small ↦ (ltb→lt small, are_bytes?-AreBytes bs (rw small at e))
  | inr big ↦ let no_ : false ≡ true = rw big at e in cc
]
