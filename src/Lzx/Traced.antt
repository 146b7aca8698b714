-- ===== src/Lzx/Traced.antt =====
-- src/lzx/decode.rs: the places in the reference that `copy_one` keeps for the bytes it copies.
use msdelta.Base.{
  ℕ, Bool, false, zero, suc, ◌+◌, ◌-◌, ◌^◌, ◌≤◌, ◌<◌, ◌≡◌, ◌&&◌, inl, inr, refl, arith, Option,
  none, some, List, [], ◌∷◌, ◌++◌, length, length-append, length-take, length-drop, get_or, take,
  drop, drop-get_or, ltb, leb, le→leb, lt→leb, le→ltb, lt→ltb, le_cases, Bool-cases,
}
use msdelta.Base.Int.{ℤ, pos, negsuc}
use msdelta.Errors.{ok, ok-injective}
use msdelta.Lzx.Copy.{
  Written, traced, span, extend_reference, extend_within, push_from, push_run, push_checked,
  copy_reference, copy_output, copy_both, copy_from, copy_one, src_start_of,
}

module _ (reference : List ℕ) where
  -- A byte that comes from a place of the reference is the byte there; -1 stands for no place.
  abbrev pub ComesFrom : ℕ → ℤ → Type 0
  ComesFrom b (pos k) = (k < length reference) × (get_or reference k 0 ≡ b)
  ComesFrom b (negsuc zero) = Unit {0}
  ComesFrom b (negsuc (suc n)) = ⊥

  abbrev pub Traces : List ℕ → List ℤ → Type 0
  Traces [] [] = Unit {0}
  Traces [] (q ∷ qs) = ⊥
  Traces (b ∷ bs) [] = ⊥
  Traces (b ∷ bs) (q ∷ qs) = ComesFrom b q × Traces bs qs

  Traces-append :
      (bs cs : List ℕ) (qs rs : List ℤ) → Traces bs qs → Traces cs rs → Traces (bs ++ cs) (qs ++ rs)
  Traces-append [] cs [] rs h k = k
  Traces-append [] cs (q ∷ qs) rs h k = absurd h
  Traces-append (b ∷ bs) cs [] rs h k = absurd h
  Traces-append (b ∷ bs) cs (q ∷ qs) rs h k = (h.0, Traces-append bs cs qs rs h.1 k)

  Traces-drop : (n : ℕ) (bs : List ℕ) (qs : List ℤ) → Traces bs qs → Traces (drop n bs) (drop n qs)
  Traces-drop zero bs qs h = h
  Traces-drop (suc n) [] [] h = tt
  Traces-drop (suc n) [] (q ∷ qs) h = absurd h
  Traces-drop (suc n) (b ∷ bs) [] h = absurd h
  Traces-drop (suc n) (b ∷ bs) (q ∷ qs) h = Traces-drop n bs qs h.1

  Traces-take : (n : ℕ) (bs : List ℕ) (qs : List ℤ) → Traces bs qs → Traces (take n bs) (take n qs)
  Traces-take zero bs qs h = tt
  Traces-take (suc n) [] [] h = tt
  Traces-take (suc n) [] (q ∷ qs) h = absurd h
  Traces-take (suc n) (b ∷ bs) [] h = absurd h
  Traces-take (suc n) (b ∷ bs) (q ∷ qs) h = (h.0, Traces-take n bs qs h.1)

  get_or-ComesFrom :
      (i : ℕ) (bs : List ℕ) (qs : List ℤ)
      → Traces bs qs
      → ComesFrom (get_or bs i 0) (get_or qs i (negsuc 0))
  get_or-ComesFrom i [] [] h = tt
  get_or-ComesFrom i [] (q ∷ qs) h = absurd h
  get_or-ComesFrom i (b ∷ bs) [] h = absurd h
  get_or-ComesFrom zero (b ∷ bs) (q ∷ qs) h = h.0
  get_or-ComesFrom (suc i) (b ∷ bs) (q ∷ qs) h = get_or-ComesFrom i bs qs h.1

  span-Traces : (s n : ℕ) → s + n ≤ length reference → Traces (take n (drop s reference)) (span s n)
  unfolding span
  span-Traces s zero h = tt
  span-Traces s (suc n) h =
      let inside : s < length reference = omega (arith, h) in
      rw (drop-get_or s reference 0 inside)
        ((inside, refl), span-Traces (suc s) n (omega (arith, h)))

-- Whether the places are kept at all is fixed before the copy.
module _ (reference : List ℕ) (tracking : Bool) where
  abbrev pub TracedBy : List ℕ → Option (List ℤ) → Type 0
  TracedBy bs none = tracking ≡ false
  TracedBy bs (some qs) = Traces reference bs qs

  extend-TracedBy :
      (bs cs : List ℕ) (src : Option (List ℤ)) (f : List ℤ → List ℤ)
      → TracedBy bs src
      → ((qs : List ℤ) → Traces reference bs qs → Traces reference cs (f qs))
      → TracedBy (bs ++ cs) (traced (λ p. p ++ f p) src)
  extend-TracedBy bs cs none f h k = h
  extend-TracedBy bs cs (some qs) f h k = Traces-append reference bs cs qs (f qs) h (k qs h)

  -- What a copy of `n` bytes keeps.
  abbrev pub Grows : ℕ → Written → Written → Type 0
  Grows n w w' = (length w'.output ≡ length w.output + n) × TracedBy w'.output w'.copy_src

  extend_reference-Grows :
      (s n : ℕ) (w : Written)
      → s + n ≤ length reference
      → TracedBy w.output w.copy_src
      → Grows n w (extend_reference reference s n w)
  unfolding extend_reference
  extend_reference-Grows s n w h k =
      let new : List ℕ = take n (drop s reference) in
      (
        omega (
          arith,
          length-append w.output new,
          length-take n (drop s reference),
          length-drop s reference,
          h,
        ),
        extend-TracedBy w.output new w.copy_src (λ p. span s n) k
            (λ qs t. span-Traces reference s n h),
      )

  extend_within-Grows :
      (s n : ℕ) (w : Written)
      → s + n ≤ length w.output
      → TracedBy w.output w.copy_src
      → Grows n w (extend_within s n w)
  unfolding extend_within
  extend_within-Grows s n w h k =
      let new : List ℕ = take n (drop s w.output) in
      (
        omega (
          arith,
          length-append w.output new,
          length-take n (drop s w.output),
          length-drop s w.output,
          h,
        ),
        extend-TracedBy w.output new w.copy_src (λ p. take n (drop s p)) k
            (λ qs t.
              Traces-take reference n (drop s w.output) (drop s qs)
                (Traces-drop reference s w.output qs t)),
      )

  push_from-Grows : (i : ℕ) (w : Written) → TracedBy w.output w.copy_src → Grows 1 w (push_from i w)
  unfolding push_from
  push_from-Grows i w k = (
    omega (arith, length-append w.output (get_or w.output i 0 ∷ [])),
    extend-TracedBy w.output (get_or w.output i 0 ∷ []) w.copy_src (λ p. get_or p i (negsuc 0) ∷ [])
        k (λ qs t. (get_or-ComesFrom reference i w.output qs t, tt)),
  )

  push_run-Grows :
      (n i : ℕ) (w : Written) → TracedBy w.output w.copy_src → Grows n w (push_run n i w)
  unfolding push_run
  push_run-Grows zero i w k = (omega arith, k)
  push_run-Grows (suc n) i w k =
      let (one, k1) = push_from-Grows i w k in
      let (more, k2) = push_run-Grows n (suc i) (push_from i w) k1 in (omega (arith, one, more), k2)

  push_checked-Grows :
      (n i : ℕ) (w w' : Written)
      → TracedBy w.output w.copy_src
      → push_checked n i w ≡ ok w'
      → Grows n w w'
  unfolding push_checked
  push_checked-Grows zero i w w' k e = rw (← ok-injective e) (omega arith, k)
  push_checked-Grows (suc n) i w w' k e = elim (le_cases (length w.output) i) [
    | inl out ↦ let e' = rw (le→leb out) at e in cc
    | inr inside ↦
        let (one, k1) = push_from-Grows i w k in
        let e' = rw (lt→leb inside) at e in
        let (more, k2) = push_checked-Grows n (suc i) (push_from i w) w' k1 e' in
        (omega (arith, one, more), k2)
  ]

  copy_reference-Grows :
      (s len : ℕ) (w w' : Written)
      → TracedBy w.output w.copy_src
      → copy_reference reference s len w ≡ ok w'
      → Grows len w w'
  unfolding copy_reference
  copy_reference-Grows s len w w' k e = elim (le_cases (s + len) (length reference)) [
    | inl inside ↦
        let e' = rw (le→ltb inside) at e in
        rw (← ok-injective e') (extend_reference-Grows s len w inside k)
    | inr over ↦ let e' = rw (lt→ltb over) at e in cc
  ]

  copy_output-Grows :
      (i len : ℕ) (w w' : Written)
      → TracedBy w.output w.copy_src
      → copy_output i len w ≡ ok w'
      → Grows len w w'
  unfolding copy_output
  copy_output-Grows i len w w' k e = elim (le_cases (length w.output) i) [
    | inl out ↦ let e' = rw (le→leb out) at e in cc
    | inr inside ↦ elim (le_cases (i + len) (length w.output)) [
      | inl slice ↦
          let e' = rw (lt→leb inside, le→leb slice) at e in
          rw (← ok-injective e') (extend_within-Grows i len w slice k)
      | inr over ↦
          let e' = rw (lt→leb inside, lt→leb over) at e in
          rw (← ok-injective e') (push_run-Grows len i w k)
    ]
  ]

  copy_both-Grows :
      (src len : ℕ) (w w' : Written)
      → src < length reference
      → length reference ≤ src + len
      → TracedBy w.output w.copy_src
      → copy_both reference (length reference) src len w ≡ ok w'
      → Grows len w w'
  unfolding copy_both
  copy_both-Grows src len w w' h over k e =
      let ref_bytes : ℕ = length reference - src in
      let (one, k1) = extend_reference-Grows src ref_bytes w (omega (arith, h)) k in
      let (more, k2) = push_checked-Grows (len - ref_bytes) 0 _ w' k1 e in
      (omega (arith, one, more, over), k2)

  -- A copy of less than 2^63 bytes that gives a result gives as many bytes as it was asked for, and
  -- keeps the places that the bytes come from true.
  pub copy_one-Grows :
      (dst_pos : ℕ) (distance : ℤ) (len : ℕ) (w w' : Written)
      → len < 2 ^ 63
      → length reference < 2 ^ 63
      → TracedBy w.output w.copy_src
      → copy_one reference (length reference) dst_pos distance len w ≡ ok w'
      → Grows len w w'
  unfolding copy_one copy_from
  copy_one-Grows dst_pos distance len w w' short small k e =
      let src : ℕ = src_start_of dst_pos distance in
      elim (le_cases (length reference) src) [
        | inl behind ↦
            elim (Bool-cases (ltb (src + len) (2 ^ 64) && leb (src + len) (length reference))) [
              | inl inside ↦ let e' = rw inside at e in copy_reference-Grows src len w w' k e'
              | inr over ↦
                  let e' = rw (over, le→leb behind) at e in
                  copy_output-Grows (src - length reference) len w w' k e'
            ]
        | inr before ↦ elim (le_cases (src + len) (length reference)) [
          | inl inside ↦
              let low : src + len < 2 ^ 64 = omega (arith, inside, small) in
              let e' = rw (lt→ltb low, le→leb inside) at e in copy_reference-Grows src len w w' k e'
          | inr over ↦
              let low : src + len < 2 ^ 64 = omega (arith, before, short, small) in
              let e' = rw (lt→ltb low, lt→leb over, lt→leb before) at e in
              copy_both-Grows src len w w' before (omega (arith, over)) k e'
        ]
      ]
