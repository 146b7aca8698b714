-- ===== src/Lzx/Slots.antt =====
-- src/lzx/encode.rs: the slots of the distances, which lie one behind another.
use msdelta.Base.{
  ℕ, zero, suc, ◌+◌, ◌-◌, ◌*◌, ◌%◌, ◌^◌, ◌≤◌, ◌<◌, ◌≡◌, inl, inr, refl, ap, ◌∙◌, arith, true, false,
  some, bit_or, lt→ltb, le→ltb, lt→leb, le→leb, le_cases, eq_cases,
}
use msdelta.Base.Bits.{two-pow-add, two-pow-pos, two-pow-suc}
use msdelta.Base.Bits.Or.{bit_or_disjoint_left}
use msdelta.Lzx.Matches.{
  base_of, half_of, base_val, max_high, fits_short, fits_aligned, fits_slot, search_slot,
}

abbrev pub lowest : ℕ → ℕ
lowest adj = base_of adj * 2 ^ half_of adj

-- The distance lies in the slot.
pub record IsIn (adj dist : ℕ) : Type 0 where
  pub from_lowest : lowest adj ≤ dist
  pub below : dist < lowest adj + 2 ^ half_of adj

lowest-suc : (adj : ℕ) → 4 ≤ adj → lowest (suc adj) ≡ lowest adj + 2 ^ half_of adj
lowest-suc adj h = elim (eq_cases (adj % 2) 0) [
  | inl even ↦
      let same : half_of (suc adj) ≡ half_of adj = omega (arith, even) in
      let three : base_of (suc adj) ≡ 3 = omega (arith, even) in
      let two : base_of adj ≡ 2 = omega (arith, even) in rw (same, three, two) (omega arith)
  | inr odd ↦
      let more : half_of (suc adj) ≡ suc (half_of adj) = omega (arith, odd, h) in
      let two : base_of (suc adj) ≡ 2 = omega (arith, odd) in
      let three : base_of adj ≡ 3 = omega (arith, odd) in
      rw (more, two, three) (omega (arith, two-pow-suc (half_of adj)))
]

pub base_val_lem : (base high : ℕ) → base_val base high ≡ base * 2 ^ high
base_val_lem base high = elim (le_cases high 0) [
  | inl none_ ↦ let z : high ≡ 0 = omega (arith, none_) in rw z (omega arith)
  | inr some_ ↦ rw (lt→ltb some_) refl
]

pub max_high_lem : (high : ℕ) → max_high high ≡ 2 ^ high - 1
max_high_lem high = elim (le_cases high 0) [
  | inl none_ ↦ let z : high ≡ 0 = omega (arith, none_) in rw z (omega arith)
  | inr some_ ↦ rw (lt→ltb some_) refl
]

highest :
    (base high : ℕ)
    → bit_or (bit_or (base_val base high) (max_high high) * 16) 15 ≡ (base + 1) * 2 ^ high * 16 - 1
highest base high =
    let p = two-pow-pos high in
    let inner = bit_or_disjoint_left high base (2 ^ high - 1) (omega (arith, p)) in
    let outer = bit_or_disjoint_left 4 (base * 2 ^ high + (2 ^ high - 1)) 15 (omega arith) in
    rw (base_val_lem, max_high_lem, inner) (outer ∙ omega (arith, p))

module _ (adj dist : ℕ) where
  abbrev high : ℕ
  high = half_of adj - 4

  pub wide : 4 ≤ half_of adj → 2 ^ half_of adj ≡ 2 ^ high * 16
  wide h = let e : high + 4 ≡ half_of adj = omega (arith, h) in rw e at (two-pow-add high 4)

  pub lowest_wide : 4 ≤ half_of adj → lowest adj ≡ base_of adj * 2 ^ high * 16
  lowest_wide h = ap (λ (t : ℕ). base_of adj * t) (wide h) ∙ omega arith

  fits_slot-true : IsIn adj dist → fits_slot adj dist ≡ true
  unfolding fits_slot fits_short fits_aligned
  fits_slot-true h = elim (le_cases 4 (half_of adj)) [
    | inr short ↦ rw (lt→ltb short, le→leb h.from_lowest, lt→ltb h.below)
    | inl long ↦
        let lo : base_of adj * 2 ^ high * 16 ≤ dist =
          omega (arith, h.from_lowest, lowest_wide long) in
        let hi : dist ≤ (base_of adj + 1) * 2 ^ high * 16 - 1 =
          omega (arith, h.below, lowest_wide long, wide long) in
        rw (le→ltb long, highest, base_val_lem, le→leb lo, le→leb hi)
  ]

  fits_slot-false : lowest adj + 2 ^ half_of adj ≤ dist → fits_slot adj dist ≡ false
  unfolding fits_slot fits_short fits_aligned
  fits_slot-false h = elim (le_cases 4 (half_of adj)) [
    | inr short ↦
        let lo : lowest adj ≤ dist = omega (arith, h) in rw (lt→ltb short, le→leb lo, le→ltb h)
    | inl long ↦
        let lo : base_of adj * 2 ^ high * 16 ≤ dist = omega (arith, h, lowest_wide long) in
        let hi : (base_of adj + 1) * 2 ^ high * 16 - 1 < dist =
          omega (arith, h, lowest_wide long, wide long, two-pow-pos high) in
        rw (le→ltb long, highest, base_val_lem, le→leb lo, lt→leb hi)
  ]

pub search_slot-finds :
    (n adj dist : ℕ)
    → 4 ≤ adj
    → lowest adj ≤ dist
    → dist < lowest (adj + n)
    → (a : ℕ) × (search_slot n adj dist ≡ some a) × (4 ≤ a) × (a < adj + n) × IsIn a dist
unfolding search_slot
search_slot-finds zero adj dist h lo hi =
    let e : adj + 0 ≡ adj = omega arith in
    absurd (omega (arith, lo, hi, ap (λ (t : ℕ). lowest t) e))
search_slot-finds (suc n) adj dist h lo hi = elim (le_cases (lowest adj + 2 ^ half_of adj) dist) [
  | inr here ↦
      let is_in : IsIn adj dist = record { from_lowest = lo; below = here } in
      rw (fits_slot-true adj dist is_in) (adj, refl, h, omega arith, is_in)
  | inl later ↦
      let e : adj + suc n ≡ suc adj + n = omega arith in
      let hi' : dist < lowest (suc adj + n) = rw e at hi in
      let (a, found, big, lt, is_in) =
        search_slot-finds n (suc adj) dist (omega (arith, h))
          (omega (arith, later, lowest-suc adj h)) hi' in
      rw (fits_slot-false adj dist later) (a, found, big, omega (arith, lt), is_in)
]
