-- ===== src/Huffman/Arrays.antt =====
-- Lists read and written by index, and two lists side by side.
use msdelta.Base.{
  ℕ, zero, suc, ◌<◌, ◌≡◌, ◌≢◌, refl, ap, arith, List, [], ◌∷◌, length, get_or, set, replicate,
}

module _ {ℓ} {A : Type ℓ} where
  pub get_or-set_self :
      (xs : List A) (i : ℕ) (v d : A) → i < length xs → get_or (set xs i v) i d ≡ v
  get_or-set_self [] i v d h = absurd (omega arith)
  get_or-set_self (x ∷ xs) zero v d h = refl
  get_or-set_self (x ∷ xs) (suc i) v d h = get_or-set_self xs i v d (omega arith)

  pub get_or-set_other :
      (xs : List A) (i j : ℕ) (v d : A) → i ≢ j → get_or (set xs i v) j d ≡ get_or xs j d
  get_or-set_other [] i j v d h = refl
  get_or-set_other (x ∷ xs) zero zero v d h = absurd (omega arith)
  get_or-set_other (x ∷ xs) zero (suc j) v d h = refl
  get_or-set_other (x ∷ xs) (suc i) zero v d h = refl
  get_or-set_other (x ∷ xs) (suc i) (suc j) v d h = get_or-set_other xs i j v d (omega arith)

  pub length-replicate_of : (n : ℕ) (v : A) → length (replicate n v) ≡ n
  length-replicate_of zero v = refl
  length-replicate_of (suc n) v = ap suc (length-replicate_of n v)

-- A relation at each place that both lists have.
abbrev pub AllPairs : (ℕ → ℕ → Type 0) → List ℕ → List ℕ → Type 0
AllPairs P [] cs = Unit {0}
AllPairs P (l ∷ ls) [] = Unit {0}
AllPairs P (l ∷ ls) (c ∷ cs) = P l c × AllPairs P ls cs

pub AllPairs-mono :
    (P Q : ℕ → ℕ → Type 0) (ls cs : List ℕ)
    → ((l c : ℕ) → P l c → Q l c)
    → AllPairs P ls cs
    → AllPairs Q ls cs
AllPairs-mono P Q [] cs f h = tt
AllPairs-mono P Q (l ∷ ls) [] f h = tt
AllPairs-mono P Q (l ∷ ls) (c ∷ cs) f h = (f l c h.0, AllPairs-mono P Q ls cs f h.1)

pub AllPairs-both :
    (P Q : ℕ → ℕ → Type 0) (ls cs : List ℕ)
    → AllPairs P ls cs
    → AllPairs Q ls cs
    → AllPairs (λ l c. P l c × Q l c) ls cs
AllPairs-both P Q [] cs h k = tt
AllPairs-both P Q (l ∷ ls) [] h k = tt
AllPairs-both P Q (l ∷ ls) (c ∷ cs) h k = ((h.0, k.0), AllPairs-both P Q ls cs h.1 k.1)
