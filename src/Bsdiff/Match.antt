-- ===== src/Bsdiff/Match.antt =====
-- src/bsdiff/mod.rs: the search of `bscreate` for a match, by halving a suffix array. The array's
-- entries are positions, natural numbers.
use Prim.Native.Nat.{Ordering, compare, min, ◌/◌}
use msdelta.Base.{
  ℕ, zero, suc, ◌+◌, ◌-◌, Bool, true, false, List, [], ◌∷◌, length, get_or, take, drop, ltb, ◌==◌,
  if◌then◌else◌,
}

-- `match_len` from its count `i` on, with `n` bytes left to compare: how far the count rises.
unfoldable pub match_from : List ℕ → ℕ → List ℕ → ℕ → ℕ → ℕ → ℕ
match_from a apos b bpos i zero = 0
match_from a apos b bpos i (suc n) =
    let rest = match_from a apos b bpos (suc i) n in
    if get_or a (apos + i) 0 == get_or b (bpos + i) 0 then suc rest else 0

unfoldable pub match_len : List ℕ → ℕ → List ℕ → ℕ → ℕ
match_len a apos b bpos = match_from a apos b bpos 0 (min (length a - apos) (length b - bpos))

-- The order of two slices of the same length.
unfoldable pub compare_slices : List ℕ → List ℕ → Ordering
compare_slices [] [] = Ordering.eq
compare_slices [] (y ∷ ys) = Ordering.lt
compare_slices (x ∷ xs) [] = Ordering.gt
compare_slices (x ∷ xs) (y ∷ ys) =
    let rest = compare_slices xs ys in
    elim (compare x y) [
      | Ordering.lt ↦ Ordering.lt
      | Ordering.eq ↦ rest
      | Ordering.gt ↦ Ordering.gt
    ]

unfoldable pub compare_at : List ℕ → ℕ → List ℕ → Ordering
compare_at source pos target =
    let slen = length source - pos in
    let cmp_len = min slen (length target) in
    elim (compare_slices (take cmp_len (drop pos source)) (take cmp_len target)) [
      | Ordering.eq ↦ compare slen (length target)
      | Ordering.lt ↦ Ordering.lt
      | Ordering.gt ↦ Ordering.gt
    ]

pub record Best : Type 0 where
  pub best_pos : ℕ
  pub best_len : ℕ

-- A longer match at `pos` replaces the best one.
unfoldable pub improve : List ℕ → List ℕ → ℕ → Best → Best
improve source target pos best =
    let ml = match_len source pos target 0 in
    if ltb best.best_len ml then record { best_pos = pos; best_len = ml } else best

pub record Search : Type 0 where
  pub lo : ℕ
  pub hi : ℕ
  pub best : Best

abbrev pub is_less : Ordering → Bool
is_less Ordering.lt = true
is_less Ordering.eq = false
is_less Ordering.gt = false

-- One round of the loop, which runs while `lo < hi`.
unfoldable pub halve : List ℕ → List ℕ → List ℕ → Search → Search
halve sa source target s =
    let mid = s.lo + (s.hi - s.lo) / 2 in
    let pos = get_or sa mid 0 in
    let found = improve source target pos s.best in
    if is_less (compare_at source pos target)
    then record { lo = suc mid; hi = s.hi; best = found }
    else record { lo = s.lo; hi = mid; best = found }

unfoldable pub search_loop : List ℕ → List ℕ → List ℕ → ℕ → Search → Search
search_loop sa source target zero s = s
search_loop sa source target (suc fuel) s =
    let rest = search_loop sa source target fuel (halve sa source target s) in
    if ltb s.lo s.hi then rest else s

-- The places beside the one where the loop ends.
unfoldable pub try_at : List ℕ → List ℕ → List ℕ → ℕ → Best → Best
try_at sa source target idx best =
    let found = improve source target (get_or sa idx 0) best in
    if ltb idx (length sa) then found else best

abbrev pub no_match : Best
no_match = record { best_pos = 0; best_len = 0 }

-- An interval of `n` places is empty after fewer than `n` rounds.
unfoldable pub find_match : List ℕ → List ℕ → List ℕ → Best
find_match [] source target = no_match
find_match (p ∷ sa) source [] = no_match
find_match (p ∷ sa) source (t ∷ target) =
    let all : List ℕ = p ∷ sa in
    let start : Search = record { lo = 0; hi = length all - 1; best = no_match } in
    let s = search_loop all source (t ∷ target) (length all) start in
    try_at all source (t ∷ target) (s.lo - 1) (try_at all source (t ∷ target) s.lo s.best)
