-- ===== src/Lzx/Rift/Lookup.antt =====
-- src/lzx/rift.rs: how far the offset of a lookup reaches.
use msdelta.Base.{
  ℕ, zero, suc, ◌+◌, ◌-◌, ◌^◌, ◌≤◌, ◌<◌, ◌≡◌, inl, inr, refl, arith, List, [], ◌∷◌, length, get_or,
  All, le_cases, lt→ltb, le→ltb,
}
use msdelta.Base.Int.{
  ℤ, pos, negsuc, pos_part, neg_part, IsI64, ◌≤ℤ◌, ◌<ℤ◌, ◌-ℤ◌, -ℤ-balance, balance-injective,
  as_i64-as_u64,
}
use msdelta.Base.Search.{binary_search, IsAscending, IsAscending-at, IsLast, binary_search-IsLast}
use msdelta.Lzx.Rift.{RiftEntry, sources, before, entry_place, get_rift}

neg_part-le : (p : ℤ) → IsI64 p → neg_part p ≤ 2 ^ 63
neg_part-le (pos n) h = omega arith
neg_part-le (negsuc n) h = omega (arith, h)

-- Above another i64 the place before a source does not wrap.
before_lem : (p s : ℤ) → IsI64 p → IsI64 s → p <ℤ s → before s ≡ s -ℤ pos 1
unfolding before
before_lem p (pos zero) hp hs lt =
    let less : pos 0 -ℤ pos 1 ≡ negsuc 0 =
      balance-injective _ _ (omega (arith, -ℤ-balance (pos 0) (pos 1))) in
    rw less (as_i64-as_u64 (negsuc 0) (omega arith))
before_lem p (pos (suc n)) hp hs lt =
    let less : pos (suc n) -ℤ pos 1 ≡ pos n =
      balance-injective _ _ (omega (arith, -ℤ-balance (pos (suc n)) (pos 1))) in
    rw less (as_i64-as_u64 (pos n) (omega (arith, hs)))
before_lem p (negsuc n) hp hs lt =
    let less : negsuc n -ℤ pos 1 ≡ negsuc (suc n) =
      balance-injective _ _ (omega (arith, -ℤ-balance (negsuc n) (pos 1))) in
    rw less (as_i64-as_u64 (negsuc (suc n)) (omega (arith, lt, neg_part-le p hp)))

below_break : (p s q : ℤ) → IsI64 p → IsI64 s → p <ℤ s → q ≤ℤ before s → q <ℤ s
below_break p s q hp hs lt h =
    let h' : q ≤ℤ (s -ℤ pos 1) = rw (before_lem p s hp hs lt) at h in
    omega (arith, h', -ℤ-balance s (pos 1))

sources-IsI64 :
    (es : List RiftEntry) (i : ℕ) → All IsI64 (sources es) → IsI64 (get_or (sources es) i (pos 0))
sources-IsI64 [] i h = omega arith
sources-IsI64 (e ∷ es) zero h = h.0
sources-IsI64 (e ∷ es) (suc i) h = sources-IsI64 es i h.1

get_or-sources :
    (es : List RiftEntry) (d : RiftEntry) (i : ℕ)
    → i < length es
    → get_or (sources es) i (pos 0) ≡ (get_or es i d).source
get_or-sources [] d i h = absurd (omega (arith, h))
get_or-sources (e ∷ es) d zero h = refl
get_or-sources (e ∷ es) d (suc i) h = get_or-sources es d i (omega (arith, h))

length-sources : (es : List RiftEntry) → length (sources es) ≡ length es
length-sources [] = refl
length-sources (e ∷ es) = omega (arith, length-sources es)

-- A later position below the next key is at the same place.
IsLast-later :
    (keys : List ℤ) (p q : ℤ) (i j : ℕ)
    → IsAscending keys
    → IsLast keys p i
    → IsLast keys q j
    → p ≤ℤ q
    → (i + 1 < length keys → q <ℤ get_or keys (i + 1) (pos 0))
    → j ≡ i
IsLast-later keys p q i j h here there le reach = elim (le_cases i j) [
  | inr less ↦
      absurd (omega (arith, le, there.above i less here.inside, here.below (omega (arith, less))))
  | inl more ↦ elim (le_cases j i) [
    | inl same ↦ omega (arith, more, same)
    | inr behind ↦
        let inside = there.inside in
        let past = reach (omega (arith, behind, inside)) in
        let least = there.below (omega (arith, behind)) in
        elim (le_cases j (i + 1)) [
          | inl next ↦
              let is : i + 1 ≡ j = omega (arith, next, behind) in
              let past' : q <ℤ get_or keys j (pos 0) = rw is at past in
              absurd (omega (arith, past', least))
          | inr far ↦
              absurd (omega (arith, past, least, IsAscending-at keys (i + 1) j h far inside))
        ]
  ]
]

-- The place that a position not before the first source is looked up at.
entry_place-IsLast :
    (e : RiftEntry) (es : List RiftEntry) (p : ℤ)
    → IsAscending (sources (e ∷ es))
    → e.source ≤ℤ p
    → IsLast (sources (e ∷ es)) p (entry_place (binary_search (sources (e ∷ es)) p))
unfolding entry_place
entry_place-IsLast e es p h le =
    let (i, last, result) = binary_search-IsLast e.source (sources es) p h in
    elim result [
      | inl found_ ↦ rw found_ last
      | inr (inl next) ↦ let back : suc i - 1 ≡ i = omega arith in rw (next, back) last
      | inr (inr (_, _, lt)) ↦ absurd (omega (arith, le, lt))
    ]

-- A lookup's result in a table whose sources ascend, none twice, holds for every position up to the
-- break that it names, when the sources and the position are i64: offset and break are the same there.
pub get_rift-constant :
    (es : List RiftEntry) (p q : ℤ)
    → IsAscending (sources es)
    → All IsI64 (sources es)
    → IsI64 p
    → p ≤ℤ q
    → q ≤ℤ (get_rift es p).1
    → get_rift es q ≡ get_rift es p
unfolding get_rift
get_rift-constant [] p q h fit hp le reach = refl
get_rift-constant (e ∷ es) p q h fit hp le reach =
    elim (le_cases (pos_part e.source + neg_part p) (pos_part p + neg_part e.source)) [
      | inl past ↦ rw (le→ltb past, le→ltb (later past), same past)
      | inr first ↦
          let reach' : q ≤ℤ before e.source = rw (lt→ltb first) at reach in
          rw (lt→ltb first, lt→ltb (below_break p e.source q hp fit.0 first reach'))
    ]
  where
    keys : List ℤ
    keys = sources (e ∷ es)

    place : ℤ → ℕ
    place x = entry_place (binary_search keys x)

    later : e.source ≤ℤ p → e.source ≤ℤ q
    later past = omega (arith, past, le)

    next_lt : e.source ≤ℤ p → place p + 1 < length keys → q <ℤ get_or keys (place p + 1) (pos 0)
    next_lt past inside =
        let here = entry_place-IsLast e es p h past in
        let room : place p + 1 < length (e ∷ es) = omega (arith, inside, length-sources (e ∷ es)) in
        let reach' : q ≤ℤ before (get_or (e ∷ es) (place p + 1) e).source =
          rw (le→ltb past, lt→ltb room) at reach in
        let key = get_or-sources (e ∷ es) e (place p + 1) room in
        below_break p (get_or keys (place p + 1) (pos 0)) q hp
          (sources-IsI64 (e ∷ es) (place p + 1) fit) (here.above (place p + 1) (omega arith) inside)
          (rw key reach')

    same : e.source ≤ℤ p → place q ≡ place p
    same past =
        IsLast-later keys p q (place p) (place q) h (entry_place-IsLast e es p h past)
          (entry_place-IsLast e es q h (later past)) le (next_lt past)
