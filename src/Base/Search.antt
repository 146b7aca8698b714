-- ===== src/Base/Search.antt =====
-- `binary_search_by_key` of Rust's slices, on the keys of the elements: the search by halving of the
-- standard library.
use msdelta.Base.{
  ◌⊎◌, true, ℕ, zero, suc, ◌+◌, ◌-◌, ◌/◌, ◌≤◌, ◌<◌, ◌≡◌, inl, inr, refl, arith, List, [], ◌∷◌,
  length, get_or, ltb, if◌then◌else◌, le_cases, lt→ltb, le→ltb, ap, Bool-cases,
}
use msdelta.Base.Int.{
  ℤ, pos, pos_part, neg_part, ltb_ℤ, eq_ℤ, eq_ℤ_refl, balance-injective, ◌≤ℤ◌, ◌<ℤ◌,
}

-- `Ok` of the place of a key, or `Err` of the place where it would be put.
pub data Search : Type 0 where
  found : ℕ → Search
  missing : ℕ → Search

-- The rounds; each leaves fewer places, so the count of keys is fuel enough.
unfoldable pub halve : ℕ → List ℤ → ℤ → ℕ → ℕ → ℕ
halve zero keys p base size = base
halve (suc fuel) keys p base size =
    let half = size / 2 in
    let next = if ltb_ℤ p (get_or keys (base + half) (pos 0)) then base else base + half in
    let rest = halve fuel keys p next (size - half) in if ltb 1 size then rest else base

unfoldable pub binary_search : List ℤ → ℤ → Search
binary_search [] p = missing 0
binary_search (k ∷ ks) p =
    let base = halve (length (k ∷ ks)) (k ∷ ks) p 0 (length (k ∷ ks)) in
    let key = get_or (k ∷ ks) base (pos 0) in
    if eq_ℤ key p then found base else if ltb_ℤ key p then missing (suc base) else missing base

-- Each key is below the next.
abbrev pub IsAscending : List ℤ → Type 0
IsAscending [] = Unit {0}
IsAscending (k ∷ []) = Unit {0}
IsAscending (k ∷ l ∷ ls) = (k <ℤ l) × IsAscending (l ∷ ls)

pub IsAscending-at :
    (keys : List ℤ) (i j : ℕ)
    → IsAscending keys
    → i < j
    → j < length keys
    → get_or keys i (pos 0) <ℤ get_or keys j (pos 0)
IsAscending-at [] i j h lt inside = absurd (omega (arith, inside))
IsAscending-at (k ∷ []) i j h lt inside = absurd (omega (arith, inside, lt))
IsAscending-at (k ∷ l ∷ ls) i zero h lt inside = absurd (omega (arith, lt))
IsAscending-at (k ∷ l ∷ ls) zero (suc zero) h lt inside = h.0
IsAscending-at (k ∷ l ∷ ls) zero (suc (suc j)) h lt inside =
    omega (arith, h.0, IsAscending-at (l ∷ ls) 0 (suc j) h.1 (omega arith) (omega (arith, inside)))
IsAscending-at (k ∷ l ∷ ls) (suc i) (suc j) h lt inside =
    IsAscending-at (l ∷ ls) i j h.1 (omega (arith, lt)) (omega (arith, inside))

-- The last place whose key is not above `p`, or the first when all keys are.
pub record IsLast (keys : List ℤ) (p : ℤ) (i : ℕ) : Type 0 where
  pub inside : i < length keys
  pub below : 0 < i → get_or keys i (pos 0) ≤ℤ p
  pub above : (j : ℕ) → i < j → j < length keys → p <ℤ get_or keys j (pos 0)

halve-IsLast :
    (fuel : ℕ) (keys : List ℤ) (p : ℤ) (base size : ℕ)
    → IsAscending keys
    → size ≤ fuel
    → 0 < size
    → base + size ≤ length keys
    → (0 < base → get_or keys base (pos 0) ≤ℤ p)
    → ((j : ℕ) → base + size ≤ j → j < length keys → p <ℤ get_or keys j (pos 0))
    → IsLast keys p (halve fuel keys p base size)
unfolding halve
halve-IsLast zero keys p base size h few more fits below above = absurd (omega (arith, few, more))
halve-IsLast (suc fuel) keys p base size h few more fits below above = elim (le_cases size 1) [
  | inl one ↦ rw (le→ltb one) (record {
    inside = omega (arith, more, fits);
    below = below;
    above = λ j lt inside. above j (omega (arith, one, lt)) inside;
  })
  | inr some_ ↦ elim (le_cases (pos_part (mid) + neg_part p) (pos_part p + neg_part (mid))) [
    | inl past ↦
        rw (lt→ltb some_, le→ltb past)
          (halve-IsLast fuel keys p (base + half) (size - half) h (omega (arith, some_, few))
            (omega (arith, some_)) (omega (arith, fits)) (λ lt. omega (arith, past))
            (λ j lt inside. above j (omega (arith, lt, some_)) inside))
    | inr before ↦
        rw (lt→ltb some_, lt→ltb before)
          (halve-IsLast fuel keys p base (size - half) h (omega (arith, some_, few))
            (omega (arith, some_)) (omega (arith, fits)) below
            (λ j lt inside. elim (le_cases j (base + half)) [
              | inl here ↦
                  let same : j ≡ base + half = omega (arith, here, lt, some_) in
                  rw same (omega (arith, before))
              | inr behind ↦
                  omega (arith, before, IsAscending-at keys (base + half) j h behind inside)
            ]))
  ]
]
  where
    half : ℕ
    half = size / 2

    mid : ℤ
    mid = get_or keys (base + half) (pos 0)

-- On ascending keys the search ends at the last place whose key is not above `p`: with `Ok` of it,
-- with `Err` of the place behind it, or with `Err` of 0 when all keys are above.
pub binary_search-IsLast :
    (k : ℤ) (ks : List ℤ) (p : ℤ)
    → IsAscending (k ∷ ks)
    → (i : ℕ) × IsLast (k ∷ ks) p i
      × ((binary_search (k ∷ ks) p ≡ found i)
          ⊎ (binary_search (k ∷ ks) p ≡ missing (suc i))
          ⊎ ((i ≡ 0) × (binary_search (k ∷ ks) p ≡ missing 0) × (p <ℤ k)))
unfolding binary_search
binary_search-IsLast k ks p h = (
  i,
  last,
  elim (Bool-cases (eq_ℤ key p)) [
    | inl same ↦ rw same (inl refl)
    | inr other ↦ elim (le_cases (pos_part p + neg_part key) (pos_part key + neg_part p)) [
      | inr less ↦ rw (other, lt→ltb less) (inr (inl refl))
      | inl more ↦
          let above : p <ℤ key =
            elim (le_cases (pos_part key + neg_part p) (pos_part p + neg_part key)) [
              | inr strict ↦ strict
              | inl both ↦
                  let same : key ≡ p = balance-injective key p (omega (arith, more, both)) in
                  let yes_ : eq_ℤ key p ≡ true = rw same (eq_ℤ_refl p) in cc
            ] in
          let first : i ≡ 0 = elim (le_cases i 0) [
            | inl none_ ↦ omega (arith, none_)
            | inr behind ↦ absurd (omega (arith, above, last.below behind))
          ] in
          let above0 : p <ℤ k = rw first at above in
          rw (other, le→ltb more) (inr (inr (first, ap missing first, above0)))
    ]
  ],
)
  where
    i : ℕ
    i = halve (length (k ∷ ks)) (k ∷ ks) p 0 (length (k ∷ ks))

    key : ℤ
    key = get_or (k ∷ ks) i (pos 0)

    last : IsLast (k ∷ ks) p i
    last =
        halve-IsLast (length (k ∷ ks)) (k ∷ ks) p 0 (length (k ∷ ks)) h (omega arith) (omega arith)
          (omega arith) (λ lt. absurd (omega (arith, lt)))
          (λ j le lt. absurd (omega (arith, le, lt)))
