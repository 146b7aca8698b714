-- ===== src/Base/Bits.antt =====
-- Shifts and masks of the source as arithmetic, at every width: `& (2^n - 1)` is a remainder,
-- and `|` joins two fields, or two overlapping windows of one number.
mod Step
pub mod Or
use Step.{bit_or_step, bit_and_step, bit_or-zero, zero-bit_or, bit_and-zero}
use Prim.Native.Nat.{ℕ, zero, suc, ◌+◌, ◌-◌, ◌*◌, ◌/◌, ◌%◌, ◌^◌, ◌≤◌, ◌<◌, max, bit_and, bit_or}
use mathlib.Core.Path.{◌≡◌, ap, sym, subst}
use native.Mathlib.Nat.{
  pow-suc, one-le-pow, div-div-eq-div-mul, div-add-mod, add-mul-mod_self_left, mod-mod,
}
use native.Mathlib.Nat.{add-mul-div_left, div-eq_of_lt, div-lt_iff_lt-mul, mod-lt}
use native.Mathlib.Omega.{arith}

pub two-pow-pos : (k : ℕ) → 0 < 2 ^ k
two-pow-pos k = one-le-pow k 2 (omega arith)

pub two-pow-suc : (k : ℕ) → 2 ^ suc k ≡ 2 * 2 ^ k
two-pow-suc k = omega (arith, pow-suc 2 k)

pub two-pow-add : (a b : ℕ) → 2 ^ (a + b) ≡ 2 ^ a * 2 ^ b
two-pow-add zero b = let e : 0 + b ≡ b = omega arith in rw e (omega arith)
two-pow-add (suc a) b =
    let e : suc a + b ≡ suc (a + b) = omega arith in
    rw e (
      omega
        (arith, two-pow-suc (a + b), two-pow-add a b, ap (λ (t : ℕ). t * 2 ^ b) (two-pow-suc a)))

pub two-pow_mono : (a b : ℕ) → a ≤ b → 2 ^ a ≤ 2 ^ b
two-pow_mono a b h =
    let e : a + (b - a) ≡ b = omega arith in
    rw (← e) (rw two-pow-add (grind (arith, two-pow-pos (b - a))))

pub div-two-pow-add : (v a b : ℕ) → v / 2 ^ (a + b) ≡ v / 2 ^ a / 2 ^ b
div-two-pow-add v a b = rw two-pow-add (sym (div-div-eq-div-mul v (2 ^ a) (2 ^ b)))

pub half-two-pow : (v a : ℕ) → v / 2 ^ suc a ≡ v / 2 / 2 ^ a
half-two-pow v a = rw (two-pow-suc a) (sym (div-div-eq-div-mul v 2 (2 ^ a)))

-- The lowest digit and the others of a remainder by a power of two.
pub mod-two-pow-suc : (v k : ℕ) → v % 2 ^ suc k ≡ 2 * (v / 2 % 2 ^ k) + v % 2
mod-two-pow-suc v k = omega (
  arith,
  div-add-mod v (2 ^ suc k),
  div-add-mod (v / 2) (2 ^ k),
  half-two-pow v k,
  two-pow-suc k,
  ap (λ (t : ℕ). t * (v / 2 / 2 ^ k)) (two-pow-suc k),
  ap (λ (t : ℕ). 2 ^ suc k * t) (half-two-pow v k),
)

-- A remainder splits at any bit.
pub mod-two-pow-add : (v a b : ℕ) → v % 2 ^ (a + b) ≡ v % 2 ^ a + 2 ^ a * (v / 2 ^ a % 2 ^ b)
mod-two-pow-add v a b =
    let p : ℕ = 2 ^ a in
    let q : ℕ = v / 2 ^ a / 2 ^ b in
    omega (
      arith,
      div-add-mod v (2 ^ (a + b)),
      div-add-mod v p,
      ap (λ (t : ℕ). p * t) (div-add-mod (v / p) (2 ^ b)),
      ap (λ (t : ℕ). 2 ^ (a + b) * t) (div-two-pow-add v a b),
      ap (λ (t : ℕ). t * q) (two-pow-add a b),
    )

-- A remainder of a remainder, by a lower power.
pub mod-mod_two-pow : (v m n : ℕ) → m ≤ n → v % 2 ^ n % 2 ^ m ≡ v % 2 ^ m
mod-mod_two-pow v m n h =
    let e : m + (n - m) ≡ n = omega arith in
    rw (← e) (rw (mod-two-pow-add, add-mul-mod_self_left) (mod-mod v (2 ^ m)))

-- A shift of a remainder.
pub mod-div_two-pow : (v k w : ℕ) → k ≤ w → v % 2 ^ w / 2 ^ k ≡ v / 2 ^ k % 2 ^ (w - k)
mod-div_two-pow v k w h =
    let e : k + (w - k) ≡ w = omega arith in
    let low : v % 2 ^ k / 2 ^ k ≡ 0 = div-eq_of_lt (mod-lt v (two-pow-pos k)) in
    let split : v % 2 ^ w ≡ v % 2 ^ k + 2 ^ k * (v / 2 ^ k % 2 ^ (w - k)) =
      subst (λ (t : ℕ). v % 2 ^ t ≡ v % 2 ^ k + 2 ^ k * (v / 2 ^ k % 2 ^ (w - k))) e
        (mod-two-pow-add v k (w - k)) in
    rw (split, add-mul-div_left _ _ (two-pow-pos k), low) (omega arith)

-- What is left of a number of `b` bits behind `k` of them has `b - k`.
pub div_two-pow-lt : (x k b : ℕ) → k ≤ b → x < 2 ^ b → x / 2 ^ k < 2 ^ (b - k)
div_two-pow-lt x k b h lt =
    let e : b - k + k ≡ b = omega arith in
    (div-lt_iff_lt-mul (two-pow-pos k)).1
      (rw (← two-pow-add (b - k) k) (subst (λ (t : ℕ). x < 2 ^ t) (sym e) lt))

-- Two fields side by side.
pub join-lt : (a m b n : ℕ) → a < 2 ^ b → m < 2 ^ n → a + m * 2 ^ b < 2 ^ (b + n)
join-lt a m b n ha hm = rw two-pow-add (grind (arith, ha, hm))

-- `x & ((1 << n) - 1)`
pub bit_and_mask : (n x : ℕ) → bit_and x (2 ^ n - 1) ≡ x % 2 ^ n
bit_and_mask zero x = rw bit_and-zero (omega arith)
bit_and_mask (suc n) x =
    let lower : (2 ^ suc n - 1) / 2 ≡ 2 ^ n - 1 = omega (arith, two-pow-suc n, two-pow-pos n) in
    let mask : bit_and (x / 2) ((2 ^ suc n - 1) / 2) ≡ x / 2 % 2 ^ n =
      rw lower (bit_and_mask n (x / 2)) in
    omega (
      arith,
      bit_and_step x (2 ^ suc n - 1),
      mask,
      mod-two-pow-suc x n,
      two-pow-suc n,
      two-pow-pos n,
    )

double : (m n : ℕ) → m * 2 ^ suc n ≡ 2 * (m * 2 ^ n)
double m n = omega (arith, ap (λ (t : ℕ). m * t) (two-pow-suc n))

-- `a | (m << n)` where `a` fits `n` bits.
pub bit_or_disjoint : (n a m : ℕ) → a < 2 ^ n → bit_or a (m * 2 ^ n) ≡ a + m * 2 ^ n
bit_or_disjoint zero a m h = let e : a ≡ 0 = omega arith in rw e (rw zero-bit_or (omega arith))
bit_or_disjoint (suc n) a m h =
    let half : m * 2 ^ suc n / 2 ≡ m * 2 ^ n = omega (arith, double m n) in
    let rest : bit_or (a / 2) (m * 2 ^ suc n / 2) ≡ a / 2 + m * 2 ^ n =
      rw half (bit_or_disjoint n (a / 2) m (omega (arith, two-pow-suc n))) in
    omega (arith, bit_or_step a (m * 2 ^ suc n), rest, double m n)

-- `|` of two low windows of one number.
or_windows : (k m t v : ℕ) → t ≡ max k m → bit_or (v % 2 ^ k) (v % 2 ^ m) ≡ v % 2 ^ t
or_windows zero m t v e =
    let e' : m ≡ t = omega arith in
    let z : v % 2 ^ 0 ≡ 0 = omega arith in rw (e', z) (zero-bit_or _)
or_windows (suc k) zero t v e =
    let e' : suc k ≡ t = omega arith in
    let z : v % 2 ^ 0 ≡ 0 = omega arith in rw (e', z) (bit_or-zero _)
or_windows (suc k) (suc m) zero v e = absurd (omega arith)
or_windows (suc k) (suc m) (suc t) v e =
    let kh : v % 2 ^ suc k / 2 ≡ v / 2 % 2 ^ k = omega (arith, mod-two-pow-suc v k) in
    let mh : v % 2 ^ suc m / 2 ≡ v / 2 % 2 ^ m = omega (arith, mod-two-pow-suc v m) in
    let ih : bit_or (v % 2 ^ suc k / 2) (v % 2 ^ suc m / 2) ≡ v / 2 % 2 ^ t =
      rw (kh, mh) (or_windows k m t (v / 2) (omega arith)) in
    omega (
      arith,
      bit_or_step (v % 2 ^ suc k) (v % 2 ^ suc m),
      ih,
      mod-two-pow-suc v k,
      mod-two-pow-suc v m,
      mod-two-pow-suc v t,
    )

-- `|` of a low window and a later one that begins inside it, or just behind it.
pub bit_or_window :
    (b k m t v : ℕ)
    → b ≤ k
    → t ≡ max k (b + m)
    → bit_or (v % 2 ^ k) (v / 2 ^ b % 2 ^ m * 2 ^ b) ≡ v % 2 ^ t
bit_or_window zero k m t v h e =
    let one : v / 2 ^ 0 % 2 ^ m * 2 ^ 0 ≡ v % 2 ^ m =
      let d : v / 1 ≡ v = omega arith in rw d (omega arith) in
    rw one (or_windows k m t v (omega arith))
bit_or_window (suc b) zero m t v h e = absurd (omega arith)
bit_or_window (suc b) (suc k) m zero v h e = absurd (omega arith)
bit_or_window (suc b) (suc k) m (suc t) v h e =
    let w : ℕ = v / 2 ^ suc b % 2 ^ m in
    let kh : v % 2 ^ suc k / 2 ≡ v / 2 % 2 ^ k = omega (arith, mod-two-pow-suc v k) in
    let wh : w * 2 ^ suc b / 2 ≡ v / 2 / 2 ^ b % 2 ^ m * 2 ^ b =
      rw (← half-two-pow v b) (omega (arith, double w b)) in
    let ih : bit_or (v % 2 ^ suc k / 2) (w * 2 ^ suc b / 2) ≡ v / 2 % 2 ^ t =
      rw (kh, wh) (bit_or_window b k m t (v / 2) (omega arith) (omega arith)) in
    omega (
      arith,
      bit_or_step (v % 2 ^ suc k) (w * 2 ^ suc b),
      ih,
      double w b,
      mod-two-pow-suc v k,
      mod-two-pow-suc v t,
    )
