-- ===== src/Huffman/Coder.antt =====
-- src/huffman.rs: what a table promises of its symbols.
use msdelta.Base.{
  ℕ, zero, suc, ◌≤◌, ◌<◌, ◌≡◌, ◌≢◌, inl, inr, refl, sym, ap, arith, List, [], ◌∷◌, length, get_or,
  set, le→ltb, lt→ltb, ne→==, eq→==, le_cases, eq_cases,
}
use msdelta.Errors.{ok, ok-injective}
use msdelta.Bitstream.Stream.{Stream, skip}
use msdelta.Bitstream.Reader.{BitReader}
use msdelta.Bitstream.Reader.Holds.{Holds}
use msdelta.Bitstream.Reader.Numbers.{Begins}
use msdelta.Bitstream.Fields.{Field, plain, IsValid}
use msdelta.Bitstream.Fields.Coding.{field_code}
use msdelta.Bitstream.Fields.At.{At, first, behind}
use msdelta.Huffman.Codes.{codes_of, longest, assign_codes}
use msdelta.Huffman.Table.{HuffmanTable, table_of, from_lengths}
use msdelta.Huffman.Symbols.{read_symbol}
use msdelta.Huffman.Arrays.{AllPairs, AllPairs-both}
use msdelta.Huffman.Shape.{FitsLength, assign_codes-FitsLength}
use msdelta.Huffman.Prefix.{IsCode, IsPrefixFree, AllPairs_at}
use msdelta.Huffman.Reading.{HasCode, read_next}
use mathlib.Core.Path.{subst}

length-le-longest : (ls : List ℕ) (i : ℕ) → get_or ls i 0 ≤ longest ls
unfolding longest
length-le-longest [] i = omega arith
length-le-longest (l ∷ ls) zero = omega arith
length-le-longest (l ∷ ls) (suc i) = omega (arith, length-le-longest ls i)

-- The symbol's code stands next, and the table reads the symbol.
abbrev pub Decodes : HuffmanTable → ℕ → Type 0
Decodes t p =
    (r : BitReader) (s : Stream)
    → Holds r s
    → Begins s (record { value = get_or t.codes p 0; width = get_or t.lengths p 0 })
    → (r' : BitReader) × (read_symbol t r ≡ ok (p, r')) × Holds r' (skip (get_or t.lengths p 0) s)

abbrev pub Encodes : HuffmanTable → ℕ → Type 0
Encodes t p = IsCode (get_or t.lengths p 0) (get_or t.codes p 0)

-- A table that reads what it writes.
pub record IsCoder (t : HuffmanTable) : Type 0 where
  pub encodes : (p : ℕ) → HasCode t.lengths p → Encodes t p
  pub decodes : (p : ℕ) → HasCode t.lengths p → Decodes t p

-- What a symbol is written as.
abbrev pub symbol_field : HuffmanTable → ℕ → Field
symbol_field t p = plain (get_or t.codes p 0) (get_or t.lengths p 0)

pub symbol_field-IsValid :
    {t : HuffmanTable} {p : ℕ} → IsCoder t → HasCode t.lengths p → IsValid (symbol_field t p)
unfolding IsValid
symbol_field-IsValid {p = p} coder has =
    let code = coder.encodes p has in (omega (arith, code.0), code.1)

pub next_symbol :
    {t : HuffmanTable} {r : BitReader} {p : ℕ} {fs : List Field}
    → IsCoder t
    → HasCode t.lengths p
    → At r (symbol_field t p ∷ fs)
    → (r' : BitReader) × (read_symbol t r ≡ ok (p, r')) × At r' fs
unfolding field_code
next_symbol {p = p} coder has a =
    let (r', e, h) = coder.decodes p has _ a.stream a.holds (first a) in (r', e, behind a h)

pub from_lengths-lengths :
    (ls : List ℕ) (t : HuffmanTable) → from_lengths ls ≡ ok t → t.lengths ≡ ls
unfolding from_lengths table_of
from_lengths-lengths [] t e = ap (λ u. u.lengths) (sym (ok-injective e))
from_lengths-lengths (l ∷ ls) t e = elim (le_cases (longest (l ∷ ls)) 16) [
  | inr long ↦ let e' = rw (lt→ltb long) at e in cc
  | inl short ↦ elim (eq_cases (longest (l ∷ ls)) 0) [
    | inl none_ ↦
        let e' = rw (le→ltb short, eq→== none_) at e in ap (λ u. u.lengths) (sym (ok-injective e'))
    | inr some_ ↦
        let e' = rw (le→ltb short, ne→== some_) at e in ap (λ u. u.lengths) (sym (ok-injective e'))
  ]
]

-- The table that `from_lengths` makes where some symbol has a code.
from_lengths-table_of :
    (ls : List ℕ) (t : HuffmanTable) (p : ℕ)
    → from_lengths ls ≡ ok t
    → 0 < get_or ls p 0
    → (t ≡ table_of ls (codes_of ls)) × (longest ls ≤ 16)
unfolding from_lengths
from_lengths-table_of [] t p e h = absurd (omega (arith, h))
from_lengths-table_of (l ∷ ls) t p e h =
    let some_ : longest (l ∷ ls) ≢ 0 = omega (arith, h, length-le-longest (l ∷ ls) p) in
    elim (le_cases (longest (l ∷ ls)) 16) [
      | inr long ↦ let e' = rw (lt→ltb long) at e in cc
      | inl short ↦ let e' = rw (le→ltb short, ne→== some_) at e in (sym (ok-injective e'), short)
    ]

length-assign_codes : (ls assigned : List ℕ) → length (assign_codes ls assigned) ≡ length ls
unfolding assign_codes
length-assign_codes [] assigned = refl
length-assign_codes (zero ∷ ls) assigned = omega (arith, length-assign_codes ls assigned)
length-assign_codes (suc l ∷ ls) assigned =
    omega (arith, length-assign_codes ls (set assigned (suc l) (suc (get_or assigned (suc l) 0))))

short_all : (ls cs : List ℕ) → longest ls ≤ 16 → AllPairs (λ l c. l ≤ 16) ls cs
unfolding longest
short_all [] cs h = tt
short_all (l ∷ ls) [] h = tt
short_all (l ∷ ls) (c ∷ cs) h = (omega (arith, h), short_all ls cs (omega (arith, h)))

codes_of-IsCode : (ls : List ℕ) → longest ls ≤ 16 → AllPairs IsCode ls (codes_of ls)
unfolding codes_of
codes_of-IsCode ls short =
    AllPairs-both (λ l c. l ≤ 16) FitsLength ls (codes_of ls) (short_all ls (codes_of ls) short)
      (assign_codes-FitsLength ls _)

length-codes_of : (ls : List ℕ) → length (codes_of ls) ≡ length ls
unfolding codes_of
length-codes_of ls = length-assign_codes ls _

-- A prefix-free table that `from_lengths` makes.
pub from_lengths-IsCoder :
    (ls : List ℕ) (t : HuffmanTable)
    → from_lengths ls ≡ ok t
    → IsPrefixFree ls (codes_of ls)
    → IsCoder t
unfolding table_of
from_lengths-IsCoder ls t made free = record {
  encodes = λ p has.
      let own : HasCode ls p = subst (λ l. HasCode l p) lengths_is has in
      let (is, codes) = made_at p own in
      subst (λ u. Encodes u p) (sym is) (AllPairs_at IsCode ls cs p own.0 (inside p own) codes);
  decodes = λ p has.
      let own : HasCode ls p = subst (λ l. HasCode l p) lengths_is has in
      let (is, codes) = made_at p own in
      subst (λ u. Decodes u p) (sym is)
        (λ r s h b. read_next ls cs codes free p own (inside p own) h b);
}
  where
    cs : List ℕ
    cs = codes_of ls

    lengths_is : t.lengths ≡ ls
    lengths_is = from_lengths-lengths ls t made

    made_at : (p : ℕ) → HasCode ls p → (t ≡ table_of ls cs) × AllPairs IsCode ls cs
    made_at p own =
        let (is, short) = from_lengths-table_of ls t p made own.1 in (is, codes_of-IsCode ls short)

    inside : (p : ℕ) → HasCode ls p → p < length cs
    inside p own = omega (arith, own.0, length-codes_of ls)
