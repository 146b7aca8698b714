-- ===== src/Bsdiff/Halving.antt =====
-- src/bsdiff/mod.rs: the halving loop of `find_match` ends.
use Prim.Native.Nat.{◌/◌}
use msdelta.Base.{
  ℕ, zero, suc, ◌+◌, ◌-◌, ◌≤◌, ◌<◌, ◌≡◌, inl, inr, arith, List, get_or, lt→ltb, le→ltb, Bool-cases,
  le_cases,
}
use msdelta.Bsdiff.Match.{halve, search_loop, Search, is_less, compare_at}

-- The interval stays inside the one it was and loses a place at least.
halve-shrinks :
    (sa source target : List ℕ) (s : Search)
    → s.lo < s.hi
    → let next = halve sa source target s in
      (s.lo ≤ next.lo) × (next.lo ≤ next.hi) × (next.hi ≤ s.hi) × (next.hi - next.lo < s.hi - s.lo)
unfolding halve
halve-shrinks sa source target s h =
    let mid : ℕ = s.lo + (s.hi - s.lo) / 2 in
    elim (Bool-cases (is_less (compare_at source (get_or sa mid 0) target))) [
      | inl less ↦ rw less (omega arith, omega (arith, h), omega arith, omega (arith, h))
      | inr more ↦ rw more (omega arith, omega (arith, h), omega (arith, h), omega (arith, h))
    ]

-- The halving loop of a match search ends with `lo` at `hi`, inside the interval where it began,
-- when it is given as many rounds as the interval has places after the first.
pub search_loop-ends :
    (sa source target : List ℕ) (fuel : ℕ) (s : Search)
    → s.lo ≤ s.hi
    → s.hi - s.lo ≤ fuel
    → let last = search_loop sa source target fuel s in
      (last.lo ≡ last.hi) × (s.lo ≤ last.lo) × (last.hi ≤ s.hi)
unfolding search_loop
search_loop-ends sa source target zero s h k = (omega (arith, h, k), omega arith, omega arith)
search_loop-ends sa source target (suc fuel) s h k = elim (le_cases s.hi s.lo) [
  | inl done ↦ rw (le→ltb done) (omega (arith, h, done), omega arith, omega arith)
  | inr more ↦
      let (le, inside, ge, fewer) = halve-shrinks sa source target s more in
      let (meets, above, below) =
        search_loop-ends sa source target fuel (halve sa source target s) inside
          (omega (arith, fewer, k)) in
      rw (lt→ltb more) (meets, omega (arith, le, above), omega (arith, ge, below))
]
