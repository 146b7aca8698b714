-- ===== src/Huffman/Selected.antt =====
-- src/huffman.rs: the entry that a code selects in a decode table.
use msdelta.Base.{
  ℕ, zero, suc, ◌+◌, ◌%◌, ◌^◌, ◌<◌, ◌≡◌, ◌≢◌, ◌⊎◌, inl, inr, refl, sym, ◌∙◌, arith, true, false,
  List, [], ◌∷◌, length, length-set, get_or, ltb, ◌==◌, le→ltb, lt→ltb, eq→==, ne→==, eq_cases,
  Bool-cases,
}
use msdelta.Huffman.Table.{
  Slot, DecodeEntry, no_entry, is_skipped, fill_symbol, fill_symbols, fill_zero,
}
use msdelta.Huffman.Arrays.{
  get_or-set_self, get_or-set_other, AllPairs, AllPairs-mono, AllPairs-both,
}
use msdelta.Huffman.Filled.{length-fill_symbol}
use native.Mathlib.Nat.{zero-mod}
use msdelta.Huffman.Prefix.{Apart, IsPrefixFree, Apart-Matches, AllPairs_at}

-- A symbol that leaves an entry as it is.
abbrev pub Leaves : List Slot → List ℕ → ℕ → ℕ → ℕ → Type 0
Leaves slots mx idx len code =
    (is_skipped len code ≡ true)
    ⊎ ((sym : ℕ) (es : List DecodeEntry)
        → get_or (fill_symbol slots mx sym len code es) idx no_entry ≡ get_or es idx no_entry)

pub fill_symbols-leave :
    (slots : List Slot) (mx : List ℕ) (idx sym : ℕ) (ls cs : List ℕ) (es : List DecodeEntry)
    → AllPairs (Leaves slots mx idx) ls cs
    → get_or (fill_symbols slots mx sym ls cs es) idx no_entry ≡ get_or es idx no_entry
unfolding fill_symbols
fill_symbols-leave slots mx idx s [] cs es h = refl
fill_symbols-leave slots mx idx s (len ∷ ls) [] es h = refl
fill_symbols-leave slots mx idx s (len ∷ ls) (code ∷ cs) es h =
    elim (Bool-cases (is_skipped len code)) [
      | inl skipped ↦ rw skipped (fill_symbols-leave slots mx idx (suc s) ls cs es h.1)
      | inr kept ↦ elim h.0 [
        | inl skipped ↦ cc
        | inr leaves ↦ rw kept (
            fill_symbols-leave slots mx idx (suc s) ls cs (fill_symbol slots mx s len code es) h.1
            ∙ leaves s es)
      ]
    ]

-- The symbol at `p` finds its entry, when it writes it and those behind it leave it.
pub fill_symbols-find :
    (slots : List Slot) (mx : List ℕ) (Q : ℕ → ℕ → Type 0) (idx p s : ℕ) (ls cs : List ℕ)
    (es : List DecodeEntry)
    → p < length ls
    → p < length cs
    → is_skipped (get_or ls p 0) (get_or cs p 0) ≡ false
    → idx < length es
    → ((t : ℕ) (fs : List DecodeEntry)
        → idx < length fs
        → get_or (fill_symbol slots mx t (get_or ls p 0) (get_or cs p 0) fs) idx no_entry
          ≡ record { symbol = t % 2 ^ 16; len = get_or ls p 0 })
    → ((l c : ℕ) → Q l c → Apart (get_or ls p 0) (get_or cs p 0) l c → Leaves slots mx idx l c)
    → AllPairs Q ls cs
    → IsPrefixFree ls cs
    → get_or (fill_symbols slots mx s ls cs es) idx no_entry
      ≡ record { symbol = (s + p) % 2 ^ 16; len = get_or ls p 0 }
unfolding fill_symbols
fill_symbols-find slots mx Q idx p s [] cs es hl hc used inside writes leaves codes free =
    absurd (omega arith)
fill_symbols-find slots mx Q idx p s (len ∷ ls) [] es hl hc used inside writes leaves codes free =
    absurd (omega arith)
fill_symbols-find slots mx Q idx zero s (len ∷ ls) (code ∷ cs) es hl hc used inside writes leaves
      codes free =
    let e : s + zero ≡ s = omega arith in
    rw (used, e)
      (fill_symbols-leave slots mx idx (suc s) ls cs (fill_symbol slots mx s len code es) (
          AllPairs-mono (λ l c. Q l c × Apart len code l c) (Leaves slots mx idx) ls cs
            (λ l c x. leaves l c x.0 x.1) (AllPairs-both Q (Apart len code) ls cs codes.1 free.0))
        ∙ writes s es inside)
fill_symbols-find slots mx Q idx (suc p) s (len ∷ ls) (code ∷ cs) es hl hc used inside writes leaves
      codes free =
    let e : s + suc p ≡ suc s + p = omega arith in
    let rest = λ (fs : List DecodeEntry) (h : idx < length fs).
      fill_symbols-find slots mx Q idx p (suc s) ls cs fs (omega arith) (omega arith) used h writes
        leaves codes.1 free.1 in
    rw e (elim (Bool-cases (is_skipped len code)) [
      | inl skipped ↦ rw skipped (rest es inside)
      | inr kept ↦ rw kept (
          rest (fill_symbol slots mx s len code es)
            (omega (arith, inside, length-fill_symbol slots mx s len code es)))
    ])

pub fill_zero-leaves :
    (total idx s : ℕ) (ls cs : List ℕ) (es : List DecodeEntry)
    → total ≢ idx
    → get_or (fill_zero total s ls cs es) idx no_entry ≡ get_or es idx no_entry
unfolding fill_zero
fill_zero-leaves total idx s [] cs es h = refl
fill_zero-leaves total idx s (len ∷ ls) [] es h = refl
fill_zero-leaves total idx s (len ∷ ls) (code ∷ cs) es h =
    let rest = fill_zero-leaves total idx (suc s) ls cs es h in
    elim (Bool-cases (ltb 0 len)) [
      | inr unused ↦ rw unused rest
      | inl used ↦ elim (Bool-cases (code == 0)) [
        | inl here ↦ rw (used, here) (get_or-set_other es total idx _ no_entry h)
        | inr later ↦ rw (used, later) rest
      ]
    ]

pub length-fill_zero :
    (total s : ℕ) (ls cs : List ℕ) (es : List DecodeEntry)
    → length (fill_zero total s ls cs es) ≡ length es
unfolding fill_zero
length-fill_zero total s [] cs es = refl
length-fill_zero total s (len ∷ ls) [] es = refl
length-fill_zero total s (len ∷ ls) (code ∷ cs) es =
    let rest = length-fill_zero total (suc s) ls cs es in
    elim (Bool-cases (ltb 0 len)) [
      | inr unused ↦ rw unused rest
      | inl used ↦ elim (Bool-cases (code == 0)) [
        | inl here ↦ rw (used, here) (length-set es total _)
        | inr later ↦ rw (used, later) rest
      ]
    ]

-- The only symbol of code 0 has the entry behind all slots.
pub fill_zero-finds :
    (total p s : ℕ) (ls cs : List ℕ) (es : List DecodeEntry)
    → p < length ls
    → p < length cs
    → 0 < get_or ls p 0
    → get_or cs p 0 ≡ 0
    → IsPrefixFree ls cs
    → total < length es
    → get_or (fill_zero total s ls cs es) total no_entry
      ≡ record { symbol = (s + p) % 2 ^ 16; len = get_or ls p 0 }
unfolding fill_zero
fill_zero-finds total p s [] cs es hl hc used z free inside = absurd (omega arith)
fill_zero-finds total p s (len ∷ ls) [] es hl hc used z free inside = absurd (omega arith)
fill_zero-finds total zero s (len ∷ ls) (code ∷ cs) es hl hc used z free inside =
    let e : s + zero ≡ s = omega arith in
    rw (lt→ltb used, eq→== z, e) (get_or-set_self es total _ no_entry inside)
fill_zero-finds total (suc p) s (len ∷ ls) (code ∷ cs) es hl hc used z free inside =
    let e : s + suc p ≡ suc s + p = omega arith in
    let rest =
      fill_zero-finds total p (suc s) ls cs es (omega arith) (omega arith) used z free.1 inside in
    rw e (elim (eq_cases len 0) [
      | inl none_ ↦ rw (le→ltb {a = 0} {b = len} (omega (arith, none_))) rest
      | inr some_ ↦ elim (eq_cases code 0) [
        | inr other ↦ rw (lt→ltb {a = 0} {b = len} (omega (arith, some_)), ne→== other) rest
        | inl same ↦
            let apart = AllPairs_at (Apart len code) ls cs p (omega arith) (omega arith) free.0 in
            absurd (
              Apart-Matches 0 len code (get_or ls p 0) (get_or cs p 0) (omega (arith, some_)) used
                apart (zero_mod len ∙ sym same) (zero_mod (get_or ls p 0) ∙ sym z))
      ]
    ])
  where
    zero_mod : (n : ℕ) → 0 % 2 ^ n ≡ 0
    zero_mod n = zero-mod (2 ^ n)
