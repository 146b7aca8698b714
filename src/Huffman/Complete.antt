-- ===== src/Huffman/Complete.antt =====
-- src/huffman.rs: the codes of lengths that fill a binary tree.
use msdelta.Base.{
  ℕ, zero, suc, ◌+◌, ◌/◌, ◌^◌, ◌≤◌, ◌<◌, ◌≡◌, ◌⊎◌, inl, inr, refl, sym, ap, ◌∙◌, arith, List, [],
  ◌∷◌, All, length, length-set, get_or, set, replicate, eq→==, ne→==, eq_cases,
}
use msdelta.Huffman.Codes.{longest, count_lengths, base_codes, assign_codes, codes_of}
use msdelta.Huffman.Arrays.{
  get_or-set_self, get_or-set_other, length-replicate_of, AllPairs, AllPairs-mono,
}
use msdelta.Huffman.Prefix.{Apart, IsPrefixFree}
use msdelta.Huffman.Reversed.{rev}
use msdelta.Huffman.Blocks.{
  occurrences, covered, IsComplete, AreBases, base_codes-AreBases, count_lengths-occurrences,
}
use mathlib.Core.Path.{subst}
use msdelta.Huffman.Codewords.{InBlock, blocks-Apart}

module _ (count base : ℕ → ℕ) (m : ℕ) (bases : AreBases count base m) where
  -- A symbol without a code, or with one of its length that is not assigned yet.
  abbrev IsLater : (ℕ → ℕ) → ℕ → ℕ → Type 0
  IsLater lo l c = (l ≡ 0) ⊎ ((v : ℕ) × (c ≡ rev l v) × InBlock count base m bases l v × (lo l ≤ v))

  -- There is room for the symbols that follow.
  record HasSpace (ls assigned : List ℕ) : Type 0 where
    from_base : (l : ℕ) → base l ≤ get_or assigned l 0
    enough : (l : ℕ) → 0 < l → l ≤ m → get_or assigned l 0 + occurrences l ls ≤ base l + count l
    wide : m < length assigned
    short : All (λ x. x ≤ m) ls

  -- A symbol of length `l` takes the next code of its length.
  module _ (l : ℕ) (ls assigned : List ℕ) (s : HasSpace (suc l ∷ ls) assigned) where
    abbrev v : ℕ
    v = get_or assigned (suc l) 0

    abbrev next : List ℕ
    next = set assigned (suc l) (suc v)

    takes_self : get_or next (suc l) 0 ≡ suc v
    takes_self = get_or-set_self assigned (suc l) (suc v) 0 (omega (arith, s.short.0, s.wide))

    grows : (j : ℕ) → get_or assigned j 0 ≤ get_or next j 0
    grows j = elim (eq_cases (suc l) j) [
      | inl here ↦
          let own : get_or next j 0 ≡ suc v =
            ap (λ (t : ℕ). get_or next t 0) (sym here) ∙ takes_self in
          omega (arith, own, ap (λ (t : ℕ). get_or assigned t 0) here)
      | inr other ↦ omega (arith, get_or-set_other assigned (suc l) j (suc v) 0 other)
    ]

    HasSpace-next : HasSpace ls next
    unfolding occurrences
    HasSpace-next = record {
      from_base = λ j. omega (arith, s.from_base j, grows j);
      enough = λ j h k. elim (eq_cases (suc l) j) [
        | inl here ↦
            let own : get_or next j 0 ≡ suc v =
              ap (λ (t : ℕ). get_or next t 0) (sym here) ∙ takes_self in
            let room = rw (eq→== here) at (s.enough j h k) in
            omega (arith, own, room, ap (λ (t : ℕ). get_or assigned t 0) here)
        | inr other ↦
            let room = rw (ne→== other) at (s.enough j h k) in
            omega (arith, room, get_or-set_other assigned (suc l) j (suc v) 0 other)
      ];
      wide = omega (arith, s.wide, length-set assigned (suc l) (suc v));
      short = s.short.1;
    }

    InBlock-own : InBlock count base m bases (suc l) v
    unfolding occurrences
    InBlock-own =
        let own : suc l ≡ suc l = refl in
        let room = rw (eq→== own) at (s.enough (suc l) (omega arith) s.short.0) in
        (omega arith, s.short.0, s.from_base (suc l), omega (arith, room))

  HasSpace-unused : (ls assigned : List ℕ) → HasSpace (zero ∷ ls) assigned → HasSpace ls assigned
  unfolding occurrences
  HasSpace-unused ls assigned s = record {
    from_base = s.from_base;
    enough = λ j h k. omega (arith, s.enough j h k);
    wide = s.wide;
    short = s.short.1;
  }

  all-IsLater :
      (ls assigned : List ℕ) (lo : ℕ → ℕ)
      → HasSpace ls assigned
      → ((j : ℕ) → lo j ≤ get_or assigned j 0)
      → AllPairs (IsLater lo) ls (assign_codes ls assigned)
  unfolding assign_codes
  all-IsLater [] assigned lo s h = tt
  all-IsLater (zero ∷ ls) assigned lo s h =
      (inl refl, all-IsLater ls assigned lo (HasSpace-unused ls assigned s) h)
  all-IsLater (suc l ∷ ls) assigned lo s h = (
    inr (get_or assigned (suc l) 0, refl, InBlock-own l ls assigned s, h (suc l)),
    all-IsLater ls _ lo (HasSpace-next l ls assigned s)
        (λ j. omega (arith, h j, grows l ls assigned s j)),
  )

  assign_codes-IsPrefixFree :
      (ls assigned : List ℕ) → HasSpace ls assigned → IsPrefixFree ls (assign_codes ls assigned)
  unfolding assign_codes
  assign_codes-IsPrefixFree [] assigned s = tt
  assign_codes-IsPrefixFree (zero ∷ ls) assigned s =
      let rest = HasSpace-unused ls assigned s in
      (
        AllPairs-mono (IsLater (λ j. 0)) _ ls _ (λ l c h. inl refl)
            (all-IsLater ls assigned (λ j. 0) rest (λ j. omega arith)),
        assign_codes-IsPrefixFree ls assigned rest,
      )
  assign_codes-IsPrefixFree (suc l ∷ ls) assigned s =
      let rest = HasSpace-next l ls assigned s in
      let code : ℕ = get_or assigned (suc l) 0 in
      let later : List ℕ = set assigned (suc l) (suc code) in
      let lo : ℕ → ℕ = λ j. get_or later j 0 in
      (
        AllPairs-mono (IsLater lo) (Apart (suc l) (rev (suc l) code)) ls _
            (λ l' c h. elim h [
              | inl unused ↦ inr (inl unused)
              | inr (w, is, bw, above) ↦
                  subst (λ (t : ℕ). Apart (suc l) (rev (suc l) code) l' t) (sym is)
                    (blocks-Apart count base m bases (suc l) code l' w (InBlock-own l ls assigned s)
                      bw
                      (λ here same.
                        let own = takes_self l ls assigned s in
                        omega (arith, own, above, same, ap (λ (t : ℕ). get_or later t 0) here)))
            ])
            (all-IsLater ls later lo rest (λ j. omega arith)),
        assign_codes-IsPrefixFree ls later rest,
      )

short-All : (ls : List ℕ) (m : ℕ) → longest ls ≤ m → All (λ x. x ≤ m) ls
unfolding longest
short-All [] m h = tt
short-All (l ∷ ls) m h = (omega (arith, h), short-All ls m (omega (arith, h)))

below-All : (ls : List ℕ) (m : ℕ) → All (λ x. x ≤ m) ls → All (λ x. x < m + 1) ls
below-All [] m h = tt
below-All (l ∷ ls) m h = (omega (arith, h.0), below-All ls m h.1)

covered-same : (f g : ℕ → ℕ) (n : ℕ) → ((l : ℕ) → 0 < l → f l ≡ g l) → covered f n ≡ covered g n
unfolding covered
covered-same f g zero h = refl
covered-same f g (suc n) h = omega (arith, covered-same f g n h, h (suc n) (omega arith))

length-base_codes :
    (m acc : ℕ) (count base : List ℕ) → length (base_codes m acc count base) ≡ length base
unfolding base_codes
length-base_codes zero acc count base = refl
length-base_codes (suc m) acc count base =
    length-base_codes m ((acc + get_or count (suc m) 0) / 2) count (set base (suc m) acc)
    ∙ length-set base (suc m) acc

zeros : (n l : ℕ) → get_or {A = ℕ} (replicate n 0) l 0 ≡ 0
zeros zero l = refl
zeros (suc n) zero = refl
zeros (suc n) (suc l) = zeros n l

-- When the code lengths fill a binary tree exactly, the codes that `from_lengths` assigns to them
-- are prefix-free: of two symbols with codes, neither code is the beginning of the other.
pub codes_of-IsPrefixFree : (ls : List ℕ) → IsComplete ls → IsPrefixFree ls (codes_of ls)
unfolding codes_of
codes_of-IsPrefixFree ls full =
    let m : ℕ = longest ls in
    let none_ : List ℕ = replicate (m + 1) 0 in
    let wide : length none_ ≡ m + 1 = length-replicate_of (m + 1) 0 in
    let counts : List ℕ = set (count_lengths ls none_) 0 0 in
    let count : ℕ → ℕ = λ l. get_or counts l 0 in
    let bases : List ℕ = base_codes m 0 counts none_ in
    let base : ℕ → ℕ = λ l. get_or bases l 0 in
    let short = short-All ls m (omega arith) in
    let inside : All (λ x. x < length none_) ls =
      subst (λ (n : ℕ). All (λ x. x < n) ls) (sym wide) (below-All ls m short) in
    let counted : (l : ℕ) → 0 < l → count l ≡ occurrences l ls = λ l h.
      let kept = get_or-set_other (count_lengths ls none_) 0 l 0 0 (omega (arith, h)) in
      omega (arith, kept, count_lengths-occurrences ls none_ l inside, zeros (m + 1) l) in
    let same : covered count m ≡ 2 ^ m =
      covered-same count (λ l. occurrences l ls) m counted ∙ full in
    assign_codes-IsPrefixFree count base m
      (base_codes-AreBases m 0 counts none_ (omega (arith, wide)) (omega (arith, same))) ls bases
      (record {
        from_base = λ l. omega arith;
        enough = λ l h k. omega (arith, counted l h);
        wide = omega (arith, length-base_codes m 0 counts none_, wide);
        short = short;
      })
