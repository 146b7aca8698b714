-- ===== src/Huffman/Blocks.antt =====
-- src/huffman.rs: the first codes of the lengths, where the lengths fill a binary tree.
use msdelta.Base.{
  ℕ, zero, suc, ◌+◌, ◌*◌, ◌/◌, ◌^◌, ◌<◌, ◌≡◌, inl, inr, refl, sym, ap, ◌∙◌, arith, List, [], ◌∷◌,
  All, length, length-set, get_or, set, ◌==◌, if◌then◌else◌, eq→==, ne→==, eq_cases,
}
use msdelta.Base.Bits.{two-pow-suc}
use msdelta.Huffman.Codes.{longest, count_lengths, base_codes}
use msdelta.Huffman.Arrays.{get_or-set_self, get_or-set_other}
use mathlib.Core.Path.{subst}

-- How many symbols have the length.
unfoldable pub occurrences : ℕ → List ℕ → ℕ
occurrences l [] = 0
occurrences l (x ∷ xs) = (if x == l then 1 else 0) + occurrences l xs

-- The leaves of a tree of a depth that the codes of at most that length cover.
unfoldable pub covered : (ℕ → ℕ) → ℕ → ℕ
covered count zero = 0
covered count (suc n) = 2 * covered count n + count (suc n)

-- The codes fill the tree exactly.
abbrev pub IsComplete : List ℕ → Type 0
IsComplete ls = covered (λ l. occurrences l ls) (longest ls) ≡ 2 ^ longest ls

-- The first codes `base` of the lengths 1 to `m`: those of a length and the ones of the next longer fill the
-- places that are not taken.
pub record AreBases (count base : ℕ → ℕ) (m : ℕ) : Type 0 where
  pub half : (l : ℕ) → 0 < l → l < m → base (suc l) + count (suc l) ≡ 2 * base l
  pub top : 0 < m → base 1 + count 1 ≡ 2

base_codes-above :
    (m acc : ℕ) (count base : List ℕ) (l : ℕ)
    → m < l
    → get_or (base_codes m acc count base) l 0 ≡ get_or base l 0
unfolding base_codes
base_codes-above zero acc count base l h = refl
base_codes-above (suc m) acc count base l h =
    base_codes-above m ((acc + get_or count (suc m) 0) / 2) count (set base (suc m) acc) l
      (omega (arith, h))
    ∙ get_or-set_other base (suc m) l acc 0 (omega (arith, h))

base_codes-top :
    (m acc : ℕ) (count base : List ℕ)
    → 0 < m
    → m < length base
    → get_or (base_codes m acc count base) m 0 ≡ acc
unfolding base_codes
base_codes-top zero acc count base h k = absurd (omega (arith, h))
base_codes-top (suc m) acc count base h k =
    base_codes-above m ((acc + get_or count (suc m) 0) / 2) count (set base (suc m) acc) (suc m)
      (omega arith)
    ∙ get_or-set_self base (suc m) acc 0 k

pub base_codes-AreBases :
    (m acc : ℕ) (count base : List ℕ)
    → m < length base
    → acc + covered (λ l. get_or count l 0) m ≡ 2 ^ m
    → AreBases (λ l. get_or count l 0) (λ l. get_or (base_codes m acc count base) l 0) m
unfolding base_codes covered
base_codes-AreBases zero acc count base k full = record {
  half = λ l h lt. absurd (omega (arith, h, lt));
  top = λ h. absurd (omega (arith, h));
}
base_codes-AreBases (suc m) acc count base k full =
    let c : ℕ = get_or count (suc m) 0 in
    let next : ℕ = (acc + c) / 2 in
    let base' : List ℕ = set base (suc m) acc in
    let inside : m < length base' = omega (arith, k, length-set base (suc m) acc) in
    let p = two-pow-suc m in
    let even : 2 * next ≡ acc + c = omega (arith, full, p) in
    let rest = base_codes-AreBases m next count base' inside (omega (arith, full, p, even)) in
    let own : get_or (base_codes m next count base') (suc m) 0 ≡ acc =
      base_codes-above m next count base' (suc m) (omega arith)
      ∙ get_or-set_self base (suc m) acc 0 k in
    record {
      half = λ l h lt. elim (eq_cases l m) [
        | inl here ↦
            let below = base_codes-top m next count base' (omega (arith, h, here)) inside in
            rw (here, own, below) (omega (arith, even))
        | inr lower ↦ rest.half l h (omega (arith, lt, lower))
      ];
      top = λ h. elim (eq_cases m 0) [
        | inl only ↦
            let one : suc m ≡ 1 = omega (arith, only) in
            let start : get_or (base_codes m next count base') 1 0 ≡ acc =
              ap (λ (t : ℕ). get_or (base_codes m next count base') t 0) (sym one) ∙ own in
            let c_is : c ≡ get_or count 1 0 = ap (λ (t : ℕ). get_or count t 0) one in
            let none_ : covered (λ l. get_or count l 0) m ≡ 0 =
              ap (λ (t : ℕ). covered (λ l. get_or count l 0) t) only in
            rw start (omega (arith, full, none_, c_is, p, ap (λ (t : ℕ). 2 ^ t) only))
        | inr more ↦ rest.top (omega (arith, more))
      ];
    }

-- What is counted.
pub count_lengths-occurrences :
    (ls count : List ℕ) (l : ℕ)
    → All (λ x. x < length count) ls
    → get_or (count_lengths ls count) l 0 ≡ get_or count l 0 + occurrences l ls
unfolding count_lengths occurrences
count_lengths-occurrences [] count l h = omega arith
count_lengths-occurrences (x ∷ xs) count l h =
    let v : ℕ = suc (get_or count x 0) in
    let same : length count ≡ length (set count x v) = sym (length-set count x v) in
    let rest =
      count_lengths-occurrences xs (set count x v) l
        (subst (λ (n : ℕ). All (λ y. y < n) xs) same h.1) in
    elim (eq_cases x l) [
      | inl here ↦
          let own : get_or (set count x v) l 0 ≡ v =
            ap (λ (t : ℕ). get_or (set count x v) t 0) (sym here)
            ∙ get_or-set_self count x v 0 h.0 in
          rw (eq→== here) (omega (arith, rest, own, ap (λ (t : ℕ). get_or count t 0) here))
      | inr other ↦ rw (ne→== other) (omega (arith, rest, get_or-set_other count x l v 0 other))
    ]
