-- ===== src/Huffman/Unused.antt =====
-- src/huffman.rs: symbols of length 0 do not touch the codes of the others.
use msdelta.Base.{ℕ, zero, suc, List, [], ◌∷◌, ◌++◌, inl, inr, refl, replicate}
use msdelta.Huffman.Arrays.{AllPairs}
use msdelta.Huffman.Prefix.{Apart, IsPrefixFree}

abbrev pub after_unused : ℕ → List ℕ → List ℕ
after_unused n ls = replicate n 0 ++ ls

pub AllPairs-after_unused :
    (n l c : ℕ) (ls cs : List ℕ)
    → AllPairs (Apart l c) ls cs
    → AllPairs (Apart l c) (after_unused n ls) (after_unused n cs)
AllPairs-after_unused zero l c ls cs h = h
AllPairs-after_unused (suc n) l c ls cs h = (inr (inl refl), AllPairs-after_unused n l c ls cs h)

none-Apart : (c : ℕ) (ls cs : List ℕ) → AllPairs (Apart 0 c) ls cs
none-Apart c [] cs = tt
none-Apart c (l ∷ ls) [] = tt
none-Apart c (l ∷ ls) (d ∷ cs) = (inl refl, none-Apart c ls cs)

pub IsPrefixFree-after_unused :
    (n : ℕ) (ls cs : List ℕ)
    → IsPrefixFree ls cs
    → IsPrefixFree (after_unused n ls) (after_unused n cs)
IsPrefixFree-after_unused zero ls cs h = h
IsPrefixFree-after_unused (suc n) ls cs h =
    (none-Apart 0 (after_unused n ls) (after_unused n cs), IsPrefixFree-after_unused n ls cs h)
