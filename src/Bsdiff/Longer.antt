-- ===== src/Bsdiff/Longer.antt =====
-- src/bsdiff/mod.rs: what `match_len` and `find_match` find.
use Prim.Native.Nat.{min, ◌/◌}
use msdelta.Base.{
  ℕ, zero, suc, ◌+◌, ◌-◌, ◌≤◌, ◌<◌, ◌≡◌, ◌≢◌, ◌⊎◌, inl, inr, refl, ap, arith, List, [], ◌∷◌, length,
  get_or, take, drop, drop-get_or, All, ltb, Bool-cases, eq_cases, eq→==, ne→==,
}
use msdelta.Bsdiff.Match.{
  match_from, match_len, improve, halve, search_loop, try_at, find_match, Best, Search, no_match,
  is_less, compare_at,
}

-- The count that `d` bytes from `p` and `q` on agree, and why it ends there.
abbrev pub IsLongest : List ℕ → ℕ → List ℕ → ℕ → ℕ → ℕ → Type 0
IsLongest a p b q n d =
    (d ≤ n)
    × (take d (drop p a) ≡ take d (drop q b))
    × ((d ≡ n) ⊎ (get_or a (p + d) 0 ≢ get_or b (q + d) 0))

IsLongest-step :
    (a : List ℕ) (p : ℕ) (b : List ℕ) (q n d : ℕ)
    → p < length a
    → q < length b
    → get_or a p 0 ≡ get_or b q 0
    → IsLongest a (suc p) b (suc q) n d
    → IsLongest a p b q (suc n) (suc d)
IsLongest-step a p b q n d ha hb same (le, agree, ends) =
    let ep : p + suc d ≡ suc p + d = omega arith in
    let eq : q + suc d ≡ suc q + d = omega arith in
    (
      omega arith,
      rw (drop-get_or p a 0 ha, drop-get_or q b 0 hb, same, agree) refl,
      elim ends [ inl e ↦ inl (ap suc e) | inr other ↦ rw (ep, eq) (inr other) ],
    )

IsLongest-stop :
    (a : List ℕ) (p : ℕ) (b : List ℕ) (q n : ℕ)
    → get_or a p 0 ≢ get_or b q 0
    → IsLongest a p b q (suc n) 0
IsLongest-stop a p b q n other =
    let ep : p + 0 ≡ p = omega arith in
    let eq : q + 0 ≡ q = omega arith in (omega arith, refl, rw (ep, eq) (inr other))

match_from-IsLongest :
    (a : List ℕ) (p : ℕ) (b : List ℕ) (q i n p1 q1 : ℕ)
    → p + i ≡ p1
    → q + i ≡ q1
    → p1 + n ≤ length a
    → q1 + n ≤ length b
    → IsLongest a p1 b q1 n (match_from a p b q i n)
unfolding match_from
match_from-IsLongest a p b q i zero p1 q1 ep eq ha hb = (omega arith, refl, inl refl)
match_from-IsLongest a p b q i (suc n) p1 q1 ep eq ha hb =
    let rest =
      match_from-IsLongest a p b q (suc i) n (suc p1) (suc q1) (omega arith) (omega arith)
        (omega arith) (omega arith) in
    elim (eq_cases (get_or a p1 0) (get_or b q1 0)) [
      | inl same ↦
          rw (ep, eq, eq→== same)
            (IsLongest-step a p1 b q1 n (match_from a p b q (suc i) n) (omega arith) (omega arith)
              same rest)
      | inr other ↦ rw (ep, eq, ne→== other) (IsLongest-stop a p1 b q1 n other)
    ]

-- From positions inside the two lists `match_len` counts the bytes that agree: all that one of the
-- lists has left, or up to a byte that differs.
pub match_len-IsLongest :
    (a : List ℕ) (p : ℕ) (b : List ℕ) (q : ℕ)
    → p ≤ length a
    → q ≤ length b
    → IsLongest a p b q (min (length a - p) (length b - q)) (match_len a p b q)
unfolding match_len
match_len-IsLongest a p b q ha hb =
    match_from-IsLongest a p b q 0 (min (length a - p) (length b - q)) p q (omega arith)
      (omega arith) (omega arith) (omega arith)

-- The bytes at `best_pos` of the source are the first `best_len` of the target.
unfoldable pub IsMatch : List ℕ → List ℕ → Best → Type 0
IsMatch source target best =
    (best.best_pos ≤ length source)
    × (best.best_len ≤ length source - best.best_pos)
    × (best.best_len ≤ length target)
    × (take best.best_len (drop best.best_pos source) ≡ take best.best_len target)

no_match-IsMatch : (source target : List ℕ) → IsMatch source target no_match
unfolding IsMatch
no_match-IsMatch source target = (omega arith, omega arith, omega arith, refl)

entry_le : (sa : List ℕ) (i n : ℕ) → All (λ p. p ≤ n) sa → get_or sa i 0 ≤ n
entry_le [] i n h = omega arith
entry_le (p ∷ sa) zero n h = h.0
entry_le (p ∷ sa) (suc i) n h = entry_le sa i n h.1

improve-IsMatch :
    (source target : List ℕ) (p : ℕ) (best : Best)
    → p ≤ length source
    → IsMatch source target best
    → IsMatch source target (improve source target p best)
unfolding improve IsMatch
improve-IsMatch source target p best h k =
    let ml : ℕ = match_len source p target 0 in
    let (le, agree, ends) = match_len-IsLongest source p target 0 h (omega arith) in
    elim (Bool-cases (ltb best.best_len ml)) [
      | inl longer ↦ rw longer (h, omega (arith, le), omega (arith, le), agree)
      | inr shorter ↦ rw shorter k
    ]

halve-IsMatch :
    (sa source target : List ℕ) (s : Search)
    → All (λ p. p ≤ length source) sa
    → IsMatch source target s.best
    → IsMatch source target (halve sa source target s).best
unfolding halve
halve-IsMatch sa source target s h k =
    let mid : ℕ = s.lo + (s.hi - s.lo) / 2 in
    let found =
      improve-IsMatch source target (get_or sa mid 0) s.best (entry_le sa mid (length source) h)
        k in
    elim (Bool-cases (is_less (compare_at source (get_or sa mid 0) target))) [
      | inl less ↦ rw less found
      | inr more ↦ rw more found
    ]

search_loop-IsMatch :
    (sa source target : List ℕ) (fuel : ℕ) (s : Search)
    → All (λ p. p ≤ length source) sa
    → IsMatch source target s.best
    → IsMatch source target (search_loop sa source target fuel s).best
unfolding search_loop
search_loop-IsMatch sa source target zero s h k = k
search_loop-IsMatch sa source target (suc fuel) s h k =
    let rest =
      search_loop-IsMatch sa source target fuel (halve sa source target s) h
        (halve-IsMatch sa source target s h k) in
    elim (Bool-cases (ltb s.lo s.hi)) [ inl more ↦ rw more rest | inr done ↦ rw done k ]

try_at-IsMatch :
    (sa source target : List ℕ) (idx : ℕ) (best : Best)
    → All (λ p. p ≤ length source) sa
    → IsMatch source target best
    → IsMatch source target (try_at sa source target idx best)
unfolding try_at
try_at-IsMatch sa source target idx best h k =
    let found =
      improve-IsMatch source target (get_or sa idx 0) best (entry_le sa idx (length source) h) k in
    elim (Bool-cases (ltb idx (length sa))) [ inl more ↦ rw more found | inr done ↦ rw done k ]

-- When the suffix array holds positions of the source, the position and the length that
-- `find_match` returns are a match: the length fits the source from that position and the target,
-- and the bytes there are the target's first ones.
pub find_match-IsMatch :
    (sa source target : List ℕ)
    → All (λ p. p ≤ length source) sa
    → IsMatch source target (find_match sa source target)
unfolding find_match
find_match-IsMatch [] source target h = no_match-IsMatch source target
find_match-IsMatch (p ∷ sa) source [] h = no_match-IsMatch source []
find_match-IsMatch (p ∷ sa) source (t ∷ ts) h =
    let start : Search = record { lo = 0; hi = length (p ∷ sa) - 1; best = no_match } in
    let s : Search = search_loop (p ∷ sa) source (t ∷ ts) (length (p ∷ sa)) start in
    let k =
      search_loop-IsMatch (p ∷ sa) source (t ∷ ts) (length (p ∷ sa)) start h
        (no_match-IsMatch source (t ∷ ts)) in
    try_at-IsMatch (p ∷ sa) source (t ∷ ts) (s.lo - 1) _ h
      (try_at-IsMatch (p ∷ sa) source (t ∷ ts) s.lo s.best h k)
