-- ===== src/Lzx/Expanded.antt =====
-- src/lzx/encode.rs: the lengths that an item stands for.
use msdelta.Base.{
  ℕ, zero, suc, ◌+◌, ◌-◌, ◌^◌, ◌≤◌, ◌<◌, ◌≡◌, inl, inr, refl, ap, arith, Bool, true, List, [], ◌∷◌,
  length, take, drop, replicate, get_or, drop-get_or, some, ◌==◌, lt→ltb, le→ltb, le_cases,
  eq_cases, Bool-cases,
}
use msdelta.Lzx.Runs.{encode_run_count, lengthen, kept_run, same_run}

-- The count of a run of 4 to 127 lengths is a bit and the `k` bits behind it.
pub record IsRunCode (count : ℕ) : Type 0 where
  pub k : ℕ
  pub v : ℕ
  pub code_is : encode_run_count count ≡ (k + 1, some (v, k))
  pub more : 2 ≤ k
  pub few : k ≤ 6
  pub fits : v < 2 ^ k
  pub sum : 2 ^ k + v ≡ count

coded :
    (count k : ℕ)
    → 2 ≤ k
    → k ≤ 6
    → 2 ^ k ≤ count
    → count < 2 ^ k + 2 ^ k
    → encode_run_count count ≡ (k + 1, some (count - 2 ^ k, k))
    → IsRunCode count
coded count k more few lo hi e = record {
  k = k;
  v = count - 2 ^ k;
  code_is = e;
  more = more;
  few = few;
  fits = omega (arith, hi, lo);
  sum = omega (arith, lo);
}

pub run_code : (count : ℕ) → 4 ≤ count → count ≤ 127 → IsRunCode count
unfolding encode_run_count
run_code count lo hi = elim (le_cases count 7) [
  | inl a ↦ coded count 2 (omega arith) (omega arith) lo (omega (arith, a)) (ground arith)
  | inr a ↦ elim (le_cases count 15) [
    | inl b ↦ coded count 3 (omega arith) (omega arith) a (omega (arith, b)) (ground arith)
    | inr b ↦ elim (le_cases count 31) [
      | inl c ↦ coded count 4 (omega arith) (omega arith) b (omega (arith, c)) (ground arith)
      | inr c ↦ elim (le_cases count 63) [
        | inl d ↦ coded count 5 (omega arith) (omega arith) c (omega (arith, d)) (ground arith)
        | inr d ↦ coded count 6 (omega arith) (omega arith) d (omega (arith, hi)) (ground arith)
      ]
    ]
  ]
]

-- What a run is lengthened to.
pub record IsRun (test : ℕ → Bool) (i run_end_cap run : ℕ) : Type 0 where
  pub within : i + run ≤ run_end_cap
  pub short : run ≤ 127
  pub passes : (j : ℕ) → j < run → test (i + j) ≡ true

lengthen-IsRun :
    (n : ℕ) (test : ℕ → Bool) (i run_end_cap run : ℕ)
    → IsRun test i run_end_cap run
    → IsRun test i run_end_cap (lengthen n test i run_end_cap run)
unfolding lengthen
lengthen-IsRun zero test i run_end_cap run h = h
lengthen-IsRun (suc n) test i run_end_cap run h = elim (le_cases run_end_cap (i + run)) [
  | inl full ↦ rw (le→ltb full) h
  | inr more ↦ elim (Bool-cases (test (i + run))) [
    | inr fails ↦ rw (lt→ltb more, fails) h
    | inl passes ↦ elim (le_cases 127 run) [
      | inl long ↦ rw (lt→ltb more, passes, le→ltb long) h
      | inr short ↦
          rw (lt→ltb more, passes, lt→ltb short)
            (lengthen-IsRun n test i run_end_cap (suc run) (record {
              within = omega (arith, more);
              short = omega (arith, short);
              passes = λ j lt. elim (eq_cases j run) [
                | inl here ↦ rw here passes
                | inr before ↦ h.passes j (omega (arith, lt, before))
              ];
            }))
    ]
  ]
]

-- Two lists with the same entries from `i` on.
pub take-drop_same :
    (m i : ℕ) (xs ys : List ℕ)
    → i + m ≤ length xs
    → i + m ≤ length ys
    → ((j : ℕ) → j < m → get_or xs (i + j) 0 ≡ get_or ys (i + j) 0)
    → take m (drop i xs) ≡ take m (drop i ys)
take-drop_same zero i xs ys hx hy same = refl
take-drop_same (suc m) i xs ys hx hy same =
    let e : i + 0 ≡ i = omega arith in
    let first : get_or xs i 0 ≡ get_or ys i 0 = rw e at (same 0 (omega arith)) in
    let next = take-drop_same m (suc i) xs ys (omega (arith, hx)) (omega (arith, hy)) (λ j lt.
      let shift : suc i + j ≡ i + suc j = omega arith in
      rw shift (same (suc j) (omega (arith, lt)))) in
    rw (drop-get_or i xs 0 (omega (arith, hx)), drop-get_or i ys 0 (omega (arith, hy)), first)
      (ap (λ t. get_or ys i 0 ∷ t) next)

-- A run of lengths that are the ones before the change.
pub kept_run-IsRun :
    (lengths prev : List ℕ) (i : ℕ)
    → i < length lengths
    → IsRun
        (λ j. get_or lengths j 0 == get_or prev j 0)
        i
        (length lengths - 1)
        (kept_run lengths prev i)
unfolding kept_run
kept_run-IsRun lengths prev i h =
    lengthen-IsRun 127 (λ j. get_or lengths j 0 == get_or prev j 0) i (length lengths - 1) 0
      (record {
        within = omega (arith, h);
        short = omega arith;
        passes = λ j lt. absurd (omega (arith, lt));
      })

-- A run of the same length.
pub same_run-IsRun :
    (lengths : List ℕ) (i : ℕ)
    → i < length lengths
    → IsRun
        (λ j. get_or lengths j 0 == get_or lengths (i - 1) 0)
        i
        (length lengths - 1)
        (same_run lengths i)
unfolding same_run
same_run-IsRun lengths i h =
    lengthen-IsRun 127 (λ j. get_or lengths j 0 == get_or lengths (i - 1) 0) i (length lengths - 1)
      0
      (record {
        within = omega (arith, h);
        short = omega arith;
        passes = λ j lt. absurd (omega (arith, lt));
      })

-- A stretch of equal entries.
pub replicate-take-drop :
    (m i x : ℕ) (xs : List ℕ)
    → i + m ≤ length xs
    → ((j : ℕ) → j < m → get_or xs (i + j) 0 ≡ x)
    → replicate m x ≡ take m (drop i xs)
replicate-take-drop zero i x xs h same = refl
replicate-take-drop (suc m) i x xs h same =
    let e : i + 0 ≡ i = omega arith in
    let first : get_or xs i 0 ≡ x = rw e at (same 0 (omega arith)) in
    let next = replicate-take-drop m (suc i) x xs (omega (arith, h)) (λ j lt.
      let shift : suc i + j ≡ i + suc j = omega arith in
      rw shift (same (suc j) (omega (arith, lt)))) in
    rw (drop-get_or i xs 0 (omega (arith, h)), first) (ap (λ t. x ∷ t) next)

pub get_or-take : (i j : ℕ) (xs : List ℕ) → j < i → get_or (take i xs) j 0 ≡ get_or xs j 0
get_or-take zero j xs h = absurd (omega (arith, h))
get_or-take (suc i) j [] h = refl
get_or-take (suc i) zero (x ∷ xs) h = refl
get_or-take (suc i) (suc j) (x ∷ xs) h = get_or-take i j xs (omega (arith, h))
