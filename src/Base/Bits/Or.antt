-- ===== src/Base/Bits/Or.antt =====
-- Bounds and low bits of `|`.
use msdelta.Base.Bits.{two-pow-pos, two-pow-suc, two-pow-add, mod-two-pow-suc, join-lt}
use msdelta.Base.Bits.Step.{bit_or_step, bit_or-zero}
use Prim.Native.Nat.{ℕ, zero, suc, ◌+◌, ◌-◌, ◌*◌, ◌/◌, ◌%◌, ◌^◌, ◌≤◌, ◌<◌, bit_or}
use mathlib.Core.Path.{◌≡◌, ap, subst, ◌∙◌}
use native.Mathlib.Nat.{mul-mod_left}
use native.Mathlib.Omega.{arith}

pub bit_or-lt : (w x y : ℕ) → x < 2 ^ w → y < 2 ^ w → bit_or x y < 2 ^ w
bit_or-lt zero x y h k =
    let a : x ≡ 0 = omega arith in let b : y ≡ 0 = omega arith in rw (a, b) (omega arith)
bit_or-lt (suc w) x y h k = omega (
  arith,
  bit_or_step x y,
  two-pow-suc w,
  bit_or-lt w (x / 2) (y / 2) (omega (arith, two-pow-suc w)) (omega (arith, two-pow-suc w)),
)

pub le-bit_or : (w x y : ℕ) → x < 2 ^ w → y < 2 ^ w → (x ≤ bit_or x y) × (y ≤ bit_or x y)
le-bit_or zero x y h k =
    let a : x ≡ 0 = omega arith in let b : y ≡ 0 = omega arith in rw (a, b) (omega arith)
le-bit_or (suc w) x y h k = omega (
  arith,
  bit_or_step x y,
  two-pow-suc w,
  le-bit_or w (x / 2) (y / 2) (omega (arith, two-pow-suc w)) (omega (arith, two-pow-suc w)),
)

pub mod-bit_or : (k x y : ℕ) → bit_or x y % 2 ^ k ≡ bit_or (x % 2 ^ k) (y % 2 ^ k)
mod-bit_or zero x y =
    let a : x % 2 ^ 0 ≡ 0 = omega arith in
    let b : y % 2 ^ 0 ≡ 0 = omega arith in rw (a, b) (omega arith)
mod-bit_or (suc k) x y =
    let xh : x % 2 ^ suc k / 2 ≡ x / 2 % 2 ^ k = omega (arith, mod-two-pow-suc x k) in
    let yh : y % 2 ^ suc k / 2 ≡ y / 2 % 2 ^ k = omega (arith, mod-two-pow-suc y k) in
    let half : bit_or x y / 2 ≡ bit_or (x / 2) (y / 2) = omega (arith, bit_or_step x y) in
    let ih : bit_or x y / 2 % 2 ^ k ≡ bit_or (x % 2 ^ suc k / 2) (y % 2 ^ suc k / 2) =
      rw (half, xh, yh) (mod-bit_or k (x / 2) (y / 2)) in
    omega (
      arith,
      ih,
      bit_or_step x y,
      bit_or_step (x % 2 ^ suc k) (y % 2 ^ suc k),
      mod-two-pow-suc (bit_or x y) k,
      mod-two-pow-suc x k,
      mod-two-pow-suc y k,
    )

double : (m n : ℕ) → m * 2 ^ suc n ≡ 2 * (m * 2 ^ n)
double m n = omega (arith, ap (λ (t : ℕ). m * t) (two-pow-suc n))

-- `(m << n) | a` where `a` fits `n` bits.
pub bit_or_disjoint_left : (n m a : ℕ) → a < 2 ^ n → bit_or (m * 2 ^ n) a ≡ m * 2 ^ n + a
bit_or_disjoint_left zero m a h =
    let e : a ≡ 0 = omega arith in rw e (bit_or-zero (m * 2 ^ 0) ∙ omega arith)
bit_or_disjoint_left (suc n) m a h =
    let half : m * 2 ^ suc n / 2 ≡ m * 2 ^ n = omega (arith, double m n) in
    let rest : bit_or (m * 2 ^ suc n / 2) (a / 2) ≡ m * 2 ^ n + a / 2 =
      rw half (bit_or_disjoint_left n m (a / 2) (omega (arith, two-pow-suc n))) in
    omega (arith, bit_or_step (m * 2 ^ suc n) a, rest, double m n)

-- A bit above the low `k` does not change them.
pub bit_or_above : (k n x : ℕ) → k ≤ n → bit_or x (2 ^ n) % 2 ^ k ≡ x % 2 ^ k
bit_or_above k n x h =
    let e : n - k + k ≡ n = omega arith in
    let none_ : 2 ^ n % 2 ^ k ≡ 0 =
      subst (λ (t : ℕ). 2 ^ t % 2 ^ k ≡ 0) e
        (rw two-pow-add (mul-mod_left (2 ^ (n - k)) (2 ^ k))) in
    mod-bit_or k x (2 ^ n) ∙ rw none_ (bit_or-zero _)

-- One byte put below a field.
pub bit_or_byte :
    (q k b : ℕ) → b < 256 → bit_or (q * 2 ^ (k + 8)) (b * 2 ^ k) ≡ (q * 256 + b) * 2 ^ k
bit_or_byte q k b lt =
    bit_or_disjoint_left (k + 8) q (b * 2 ^ k)
      (omega (arith, two-pow-add k 8, two-pow-pos k, small))
    ∙ omega (arith, ap (λ (t : ℕ). q * t) (two-pow-add k 8))
  where
    small : b * 2 ^ k < 256 * 2 ^ k
    small = omega (arith, join-lt 0 b k 8 (two-pow-pos k) lt, two-pow-add k 8)
