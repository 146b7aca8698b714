-- ===== src/Lzx/Items.antt =====
-- src/lzx/encode.rs and src/lzx/decode.rs: an item of the code lengths, written and read.
use msdelta.Base.{
  ℕ, ◌+◌, ◌-◌, ◌%◌, ◌^◌, ◌≤◌, ◌<◌, ◌≡◌, ◌⊎◌, inl, inr, refl, ap, ◌∙◌, arith, List, [], ◌∷◌, length,
  get_or, bit_and, bit_or, none, some, lt→ltb, le→ltb, lt→leb, le→leb, ne→==, eq→==, eq_cases,
}
use msdelta.Base.Bits.{bit_and_mask}
use msdelta.Base.Bits.Or.{bit_or_disjoint_left}
use msdelta.Errors.{ok}
use msdelta.Bitstream.Reader.{BitReader, read_bits}
use msdelta.Bitstream.Fields.{Field, plain}
use msdelta.Huffman.Table.{HuffmanTable}
use msdelta.Huffman.Symbols
use msdelta.Huffman.Coder.{symbol_field}
use msdelta.Lzx.Lengths.{shifted_length, read_run_count, run_of, next_lengths}
use msdelta.Lzx.Runs.{Item, single}
use msdelta.Lzx.Expanded.{IsRunCode}

-- The fields that an item is written as, in front of others.
unfoldable pub item_fields : HuffmanTable → Item → List Field → List Field
item_fields pretree (s, none) fs = symbol_field pretree s ∷ fs
item_fields pretree (s, some (v, k)) fs = symbol_field pretree s ∷ plain v k ∷ fs

-- The count of a run is read back.
read_run_count-ok :
    {count : ℕ} (c : IsRunCode count) (r r' : BitReader)
    → read_bits c.k r ≡ ok (c.v, r')
    → read_run_count (c.k + 1) r ≡ ok (count, r')
unfolding read_run_count
read_run_count-ok {count} c r r' e =
    let large : 3 ≤ c.k + 1 = omega (arith, c.more) in
    let same : c.k + 1 - 1 ≡ c.k = omega arith in
    let joined : bit_or (2 ^ c.k) c.v ≡ count =
      ap (λ (t : ℕ). bit_or t c.v) (omega arith)
      ∙ bit_or_disjoint_left c.k 1 c.v c.fits
      ∙ omega (arith, c.sum) in
    rw (le→ltb large, same, e) (ap (λ (t : ℕ). ok (t, r')) joined)

-- A symbol for a run, and the bits of its count.
pub next_lengths-run :
    (pretree : HuffmanTable) (prev result run : List ℕ) (base count : ℕ) (c : IsRunCode count)
    (r r1 r2 : BitReader)
    → base % 8 ≡ 0
    → Symbols.read_symbol pretree r ≡ ok (c.k + 1 + base + 23, r1)
    → read_bits c.k r1 ≡ ok (c.v, r2)
    → run_of (c.k + 1 + base) count prev result ≡ ok run
    → next_lengths pretree prev result r ≡ ok (run, r2)
unfolding next_lengths
next_lengths-run pretree prev result run base count c r r1 r2 whole e1 e2 e3 =
    let s : ℕ = c.k + 1 + base + 23 in
    let not_raw : 16 < s = omega arith in
    let is_run : 23 ≤ s = omega arith in
    let run_sym : s - 23 ≡ c.k + 1 + base = omega arith in
    let slot : bit_and (c.k + 1 + base) 7 ≡ c.k + 1 =
      bit_and_mask 3 (c.k + 1 + base) ∙ omega (arith, whole, c.few) in
    rw e1 (
      rw (lt→leb not_raw, le→ltb is_run, run_sym, slot)
        (rw (read_run_count-ok c r1 r2 e2) (rw e3 refl)))

-- A single length is written as it is, or as its change.
IsSingle : ℕ → ℕ → ℕ → Type 0
IsSingle l p s = ((s ≤ 16) × (s ≡ l)) ⊎ ((16 < s) × (s < 23) × (shifted_length (s - 17) p ≡ l))

single-IsSingle : (l p : ℕ) → l ≤ 16 → p ≤ 16 → IsSingle l p (single l p)
unfolding single IsSingle shifted_length
single-IsSingle l p h k = elim (eq_cases l (p + 1)) [
  | inl a ↦ rw (eq→== a) (inr (omega arith, omega arith, omega (arith, a, k)))
  | inr a ↦ elim (eq_cases l (p + 2)) [
    | inl b ↦ rw (ne→== a, eq→== b) (inr (omega arith, omega arith, omega (arith, b, k)))
    | inr b ↦ elim (eq_cases l (p + 3)) [
      | inl c ↦ rw (ne→== a, ne→== b, eq→== c) (inr (omega arith, omega arith, omega (arith, c, k)))
      | inr c ↦ elim (eq_cases p (l + 1)) [
        | inl d ↦
            rw (ne→== a, ne→== b, ne→== c, eq→== d)
              (inr (omega arith, omega arith, omega (arith, d, h)))
        | inr d ↦ elim (eq_cases p (l + 2)) [
          | inl f ↦
              rw (ne→== a, ne→== b, ne→== c, ne→== d, eq→== f)
                (inr (omega arith, omega arith, omega (arith, f, h)))
          | inr f ↦ elim (eq_cases p (l + 3)) [
            | inl g ↦
                rw (ne→== a, ne→== b, ne→== c, ne→== d, ne→== f, eq→== g)
                  (inr (omega arith, omega arith, omega (arith, g, h)))
            | inr g ↦ rw (ne→== a, ne→== b, ne→== c, ne→== d, ne→== f, ne→== g) (inl (h, refl))
          ]
        ]
      ]
    ]
  ]
]

pub next_lengths-single :
    (pretree : HuffmanTable) (prev result : List ℕ) (l : ℕ) (r r1 : BitReader)
    → l ≤ 16
    → get_or prev (length result) 0 ≤ 16
    → Symbols.read_symbol pretree r ≡ ok (single l (get_or prev (length result) 0), r1)
    → next_lengths pretree prev result r ≡ ok (l ∷ [], r1)
unfolding next_lengths IsSingle
next_lengths-single pretree prev result l r r1 h k e =
    elim (single-IsSingle l (get_or prev (length result) 0) h k) [
      | inl (low, same) ↦ rw (e, le→leb low, same) refl
      | inr (high, few, back) ↦ rw (e, lt→leb high, lt→ltb few, back) refl
    ]
