-- ===== src/Huffman/Codewords.antt =====
-- src/huffman.rs: codes that lie in the blocks of their lengths.
use msdelta.Base.{
  ℕ, zero, suc, ◌+◌, ◌-◌, ◌*◌, ◌/◌, ◌%◌, ◌^◌, min, ◌≤◌, ◌<◌, ◌≡◌, ◌≢◌, inl, inr, sym, ap, arith,
  le_cases, eq_cases,
}
use msdelta.Base.Bits.{two-pow-add, two-pow-pos, half-two-pow}
use msdelta.Huffman.Prefix.{Apart, Apart-comm}
use msdelta.Huffman.Reversed.{rev, rev-lt, rev-mod, rev-injective}
use msdelta.Huffman.Blocks.{AreBases}
use native.Mathlib.Nat.{mod-eq_of_lt, mod-lt, div-add-mod}
use mathlib.Core.Path.{subst}

twice : (k v : ℕ) → v / 2 ^ k < 2 → v < 2 * 2 ^ k
twice k v h =
    let whole = div-add-mod v (2 ^ k) in
    let low = mod-lt v (two-pow-pos k) in
    let bound : 2 ^ k * (v / 2 ^ k) ≤ 2 ^ k * 1 = grind arith in omega (arith, whole, low, bound)

module _ (count base : ℕ → ℕ) (m : ℕ) (bases : AreBases count base m) where
  -- A code of the length.
  abbrev pub InBlock : ℕ → ℕ → Type 0
  InBlock l v = (0 < l) × (l ≤ m) × (base l ≤ v) × (v < base l + count l)

  -- The first bits of a longer code come before the shorter ones.
  shortened :
      (d l v : ℕ)
      → 0 < l
      → suc d + l ≤ m
      → v < base (suc d + l) + count (suc d + l)
      → v / 2 ^ suc d < base l
  shortened zero l v h k lt =
      let e : 1 + l ≡ suc l = omega arith in
      let half = bases.half l h (omega (arith, k)) in omega (arith, half, rw e at lt)
  shortened (suc d) l v h k lt =
      let e : suc (suc d) + l ≡ suc (suc d + l) = omega arith in
      let half = bases.half (suc d + l) (omega arith) (omega (arith, k)) in
      let v_lt : v < base (suc (suc d + l)) + count (suc (suc d + l)) = rw e at lt in
      let below : v / 2 < base (suc d + l) + count (suc d + l) = omega (arith, half, v_lt) in
      rw half-two-pow (shortened d l (v / 2) h (omega (arith, k)) below)

  fits : (l v : ℕ) → InBlock l v → v < 2 ^ l
  fits l v b = elim (eq_cases l 1) [
    | inl one ↦
        let top = bases.top (omega (arith, b)) in
        omega (arith, b.3, ap base one, ap count one, top, ap (λ (t : ℕ). 2 ^ t) one)
    | inr more ↦
        let d : ℕ = l - 2 in
        let e : suc d + 1 ≡ l = omega (arith, more, b) in
        let top = bases.top (omega (arith, b)) in
        let v_lt : v < base (suc d + 1) + count (suc d + 1) = rw (sym e) at b.3 in
        let below = shortened d 1 v (omega arith) (omega (arith, b, e)) v_lt in
        omega (
          arith,
          twice (suc d) v (omega (arith, below, top)),
          ap (λ (t : ℕ). 2 ^ t) e,
          two-pow-add (suc d) 1,
        )
  ]

  same_length : (l v w : ℕ) → InBlock l v → InBlock l w → v ≢ w → Apart l (rev l v) l (rev l w)
  same_length l v w bv bw other =
      let e : min l l ≡ l = omega arith in
      let one : rev l v % 2 ^ l ≡ rev l v = mod-eq_of_lt (rev-lt l v) in
      let two : rev l w % 2 ^ l ≡ rev l w = mod-eq_of_lt (rev-lt l w) in
      rw (e, one, two)
        (inr (inr (λ same. other (rev-injective l v w (fits l v bv) (fits l w bw) same))))

  longer :
      (d l v w : ℕ)
      → InBlock l v
      → InBlock (suc d + l) w
      → Apart l (rev l v) (suc d + l) (rev (suc d + l) w)
  longer d l v w bv bw =
      let e : min l (suc d + l) ≡ l = omega arith in
      let one : rev l v % 2 ^ l ≡ rev l v = mod-eq_of_lt (rev-lt l v) in
      let two = rev-mod (suc d) l w in
      let below = shortened d l w bv.0 bw.1 bw.3 in
      let small : w / 2 ^ suc d < 2 ^ l = omega (arith, below, bv.2, fits l v bv) in
      rw (e, one, two)
        (inr (
          inr (λ same.
            let equal = rev-injective l v (w / 2 ^ suc d) (fits l v bv) small same in
            omega (arith, equal, below, bv.2))))

  -- Different codes are apart.
  pub blocks-Apart :
      (l v l' w : ℕ)
      → InBlock l v
      → InBlock l' w
      → (l ≡ l' → v ≢ w)
      → Apart l (rev l v) l' (rev l' w)
  blocks-Apart l v l' w bv bw other = elim (eq_cases l l') [
    | inl here ↦
        let bw' : InBlock l w = subst (λ (t : ℕ). InBlock t w) (sym here) bw in
        subst (λ (t : ℕ). Apart l (rev l v) t (rev t w)) here
          (same_length l v w bv bw' (other here))
    | inr apart ↦ elim (le_cases l l') [
      | inl less ↦
          let e : suc (l' - l - 1) + l ≡ l' = omega (arith, less, apart) in
          subst (λ (t : ℕ). Apart l (rev l v) t (rev t w)) e
            (longer (l' - l - 1) l v w bv (subst (λ (t : ℕ). InBlock t w) (sym e) bw))
      | inr more ↦
          let e : suc (l - l' - 1) + l' ≡ l = omega (arith, more) in
          Apart-comm l' (rev l' w) l (rev l v) (
            subst (λ (t : ℕ). Apart l' (rev l' w) t (rev t v)) e
              (longer (l - l' - 1) l' w v bw (subst (λ (t : ℕ). InBlock t v) (sym e) bv)))
    ]
  ]
