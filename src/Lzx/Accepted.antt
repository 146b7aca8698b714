-- ===== src/Lzx/Accepted.antt =====
-- src/lzx/decode.rs: the code lengths that `read_compression_lengths` gives.
use msdelta.Base.{
  ℕ, zero, suc, ◌+◌, ◌-◌, ◌^◌, ◌≤◌, ◌<◌, ◌≡◌, inl, inr, refl, ap, ◌∙◌, arith, false, List, [], ◌∷◌,
  ◌++◌, length, length-append, length-take, length-drop, take, drop, All, ◌==◌, lt→ltb, le→ltb,
  le→leb, lt→leb, le_cases, eq→==, Bool-cases, bit_and, bit_or, All-take, All-drop,
}
use msdelta.Base.Bits.{bit_and_mask, two-pow-pos, two-pow-add}
use msdelta.Base.Bits.Or.{le-bit_or}
use msdelta.Errors.{ok, >>=-ok, ok-injective, unless-ok}
use msdelta.Bitstream.Reader.{BitReader, read_bits, read_narrow, ensure_bits}
use msdelta.Bitstream.Words.{mask64}
use msdelta.Bitstream.Words.Laws.{bit_and-mask64}
use msdelta.Lzx.Format.{length-replicate}
use native.Mathlib.Nat.{mod-lt}
use msdelta.Huffman.Codes.{longest, max_code_len}
use msdelta.Huffman.Table.{HuffmanTable, from_lengths}
use msdelta.Huffman.Symbols
use msdelta.Lzx.Symbols.{SegmentTables, from_parts, from_all_lengths, total_lengths}
use msdelta.Lzx.Lengths.{
  read_run_count, run_of, next_lengths, lengths_loop, checked_lengths, read_compression_lengths,
}

abbrev pub AreShort : List ℕ → Type 0
AreShort ls = All (λ l. l ≤ 16) ls

checked_lengths-ok : (ls ls' : List ℕ) → checked_lengths ls ≡ ok ls' → (ls ≡ ls') × AreShort ls
unfolding checked_lengths
checked_lengths-ok [] ls' e = (ok-injective e, tt)
checked_lengths-ok (l ∷ ls) ls' e = elim (le_cases l 16) [
  | inr long ↦ let e' = rw (lt→ltb long) at e in cc
  | inl short ↦
      let e' = rw (le→ltb short) at e in
      let (rest, e1, e2) = >>=-ok (checked_lengths ls) _ e' in
      let (same, all) = checked_lengths-ok ls rest e1 in
      (ap (λ t. l ∷ t) same ∙ ok-injective e2, (short, all))
]

longest-le : (ls : List ℕ) → AreShort ls → longest ls ≤ 16
unfolding longest
longest-le [] h = omega arith
longest-le (l ∷ ls) h = omega (arith, h.0, longest-le ls h.1)

-- Lengths of at most 16 make a table.
from_lengths-ok : (ls : List ℕ) → AreShort ls → (t : HuffmanTable) × (from_lengths ls ≡ ok t)
unfolding from_lengths
from_lengths-ok [] h = (_, refl)
from_lengths-ok (l ∷ ls) h =
    let short : longest (l ∷ ls) ≤ max_code_len = longest-le (l ∷ ls) h in
    elim (Bool-cases (longest (l ∷ ls) == 0)) [
      | inl none_ ↦ rw (le→ltb short, none_) (_, refl)
      | inr some_ ↦ rw (le→ltb short, some_) (_, refl)
    ]

from_all_lengths-ok :
    (ls : List ℕ)
    → length ls ≡ total_lengths
    → AreShort ls
    → (tables : SegmentTables) × (from_all_lengths ls ≡ ok tables)
unfolding from_all_lengths from_parts
from_all_lengths-ok ls full short =
    let P = λ (l : ℕ). l ≤ 16 in
    let (main, e1) = from_lengths-ok (take 600 ls) (All-take P 600 ls short) in
    let (lens, e2) =
      from_lengths-ok (take 256 (drop 600 ls))
        (All-take P 256 (drop 600 ls) (All-drop P 600 ls short)) in
    let (aligned, e3) = from_lengths-ok (drop 856 ls) (All-drop P 856 ls short) in
    (record { main = main; lengths = lens; aligned = aligned }, rw (eq→== full, e1, e2, e3))

read_narrow-lt :
    (n : ℕ) (r r1 : BitReader) (v : ℕ) → n < 64 → read_narrow n r ≡ ok (v, r1) → v < 2 ^ n
unfolding read_narrow
read_narrow-lt n r r1 v h e =
    let (r', e1, e2) = >>=-ok (ensure_bits n r) _ e in
    let same : bit_and r'.accum (mask64 n) ≡ v = ap (λ t. t.0) (ok-injective e2) in
    rw (← same, bit_and-mask64 r'.accum n h) (mod-lt r'.accum (two-pow-pos n))

-- A run has a length at least.
read_run_count-pos :
    (run_slot : ℕ) (r : BitReader) (v : ℕ × BitReader)
    → run_slot < 8
    → read_run_count run_slot r ≡ ok v
    → 0 < v.0
unfolding read_run_count read_bits
read_run_count-pos run_slot r v h e = elim (le_cases 3 run_slot) [
  | inr few ↦
      let e' = rw (lt→ltb few) at e in
      let same : run_slot + 1 ≡ v.0 = ap (λ t. t.0) (ok-injective e') in omega (arith, same)
  | inl more ↦
      let n : ℕ = run_slot - 1 in
      let some_ : (n == 0) ≡ false = ground arith in
      let narrow : n ≤ 56 = omega (arith, h) in
      let e' = rw (le→ltb more, some_, le→leb narrow) at e in
      let (extra, e1, e2) = >>=-ok (read_narrow n r) _ e' in
      let fits = read_narrow-lt n r extra.1 extra.0 (omega (arith, h)) e1 in
      let same : bit_or (2 ^ n) extra.0 ≡ v.0 = ap (λ t. t.0) (ok-injective e2) in
      let (low, high) =
        le-bit_or (n + 1) (2 ^ n) extra.0 (omega (arith, two-pow-add n 1, two-pow-pos n))
          (omega (arith, two-pow-add n 1, fits)) in
      omega (arith, same, low, two-pow-pos n)
]

-- A run that is accepted has the length that was read, and ends within the lengths.
run_of-length :
    (run_sym run_count : ℕ) (prev result run : List ℕ)
    → length prev ≡ total_lengths
    → run_of run_sym run_count prev result ≡ ok run
    → (length run ≡ run_count) × (length result + run_count ≤ total_lengths)
unfolding run_of
run_of-length run_sym run_count prev result run full e =
    elim (le_cases (length result + run_count) total_lengths) [
      | inr over ↦ let e' = rw (lt→ltb over) at e in cc
      | inl inside ↦ elim (le_cases 8 run_sym) [
        | inl old ↦
            let e' = rw (le→ltb inside, le→leb old) at e in
            rw (← ok-injective e') (
              omega (
                arith,
                length-take run_count (drop (length result) prev),
                length-drop (length result) prev,
                full,
                inside,
              ),
              inside,
            )
        | inr again ↦
            let e' = rw (le→ltb inside, lt→leb again) at e in
            let (begun, e2) = unless-ok (length result == 0) _ e' in
            rw (← ok-injective e2) (length-replicate run_count _, inside)
      ]
    ]

next_lengths-length :
    (pretree : HuffmanTable) (prev result : List ℕ) (r : BitReader) (v : List ℕ × BitReader)
    → length prev ≡ total_lengths
    → length result < total_lengths
    → next_lengths pretree prev result r ≡ ok v
    → (0 < length v.0) × (length result + length v.0 ≤ total_lengths)
unfolding next_lengths
next_lengths-length pretree prev result r v full more e =
    let (sym, e1, e2) = >>=-ok (Symbols.read_symbol pretree r) _ e in
    elim (le_cases sym.0 16) [
      | inl raw ↦
          let e3 = rw (le→leb raw) at e2 in
          let same : 1 ≡ length v.0 = ap (λ t. length t.0) (ok-injective e3) in
          omega (arith, same, more)
      | inr above ↦ elim (le_cases 23 sym.0) [
        | inr change ↦
            let e3 = rw (lt→leb above, lt→ltb change) at e2 in
            let same : 1 ≡ length v.0 = ap (λ t. length t.0) (ok-injective e3) in
            omega (arith, same, more)
        | inl run ↦
            let slot : ℕ = bit_and (sym.0 - 23) 7 in
            let e3 = rw (lt→leb above, le→ltb run) at e2 in
            let (count, e4, e5) = >>=-ok (read_run_count slot sym.1) _ e3 in
            let (new, e6, e7) = >>=-ok (run_of (sym.0 - 23) count.0 prev result) _ e5 in
            let some_ =
              read_run_count-pos slot sym.1 count (rw (bit_and_mask 3 (sym.0 - 23)) (omega arith))
                e4 in
            let (long, inside) = run_of-length (sym.0 - 23) count.0 prev result new full e6 in
            let same : length new ≡ length v.0 = ap (λ t. length t.0) (ok-injective e7) in
            omega (arith, same, long, inside, some_)
      ]
    ]

lengths_loop-length :
    (fuel : ℕ) (pretree : HuffmanTable) (prev result : List ℕ) (r : BitReader)
    (v : List ℕ × BitReader)
    → length prev ≡ total_lengths
    → length result ≤ total_lengths
    → total_lengths ≤ length result + fuel
    → lengths_loop fuel pretree prev result r ≡ ok v
    → length v.0 ≡ total_lengths
unfolding lengths_loop
lengths_loop-length zero pretree prev result r v full most enough e =
    let same : length result ≡ length v.0 = ap (λ t. length t.0) (ok-injective e) in
    omega (arith, same, most, enough)
lengths_loop-length (suc fuel) pretree prev result r v full most enough e =
    elim (le_cases total_lengths (length result)) [
      | inl done ↦
          let e' = rw (le→ltb done) at e in
          let same : length result ≡ length v.0 = ap (λ t. length t.0) (ok-injective e') in
          omega (arith, same, most, done)
      | inr more ↦
          let e' = rw (lt→ltb more) at e in
          let (new, e1, e2) = >>=-ok (next_lengths pretree prev result r) _ e' in
          let (some_, inside) = next_lengths-length pretree prev result r new full more e1 in
          let joined = length-append result new.0 in
          lengths_loop-length fuel pretree prev (result ++ new.0) new.1 v full
            (omega (arith, joined, inside)) (omega (arith, joined, some_, enough)) e2
    ]

-- When the lengths before the change are as many as a segment's tables have symbols, so are the
-- lengths that are read: none is above 16, and the segment's three tables are made of them without
-- an error.
pub read_compression_lengths-ok :
    (r r1 : BitReader) (pretree : HuffmanTable) (prev lengths : List ℕ)
    → length prev ≡ total_lengths
    → read_compression_lengths r pretree prev ≡ ok (lengths, r1)
    → (length lengths ≡ total_lengths)
      × AreShort lengths
      × ((tables : SegmentTables) × (from_all_lengths lengths ≡ ok tables))
unfolding read_compression_lengths
read_compression_lengths-ok r r1 pretree prev lengths full e =
    let (result, e1, e2) = >>=-ok (lengths_loop total_lengths pretree prev [] r) _ e in
    let (checked, e3, e4) = >>=-ok (checked_lengths result.0) _ e2 in
    let (same, short) = checked_lengths-ok result.0 checked e3 in
    let all =
      lengths_loop-length total_lengths pretree prev [] r result full (omega arith) (omega arith)
        e1 in
    let out : result.0 ≡ lengths = same ∙ ap (λ t. t.0) (ok-injective e4) in
    let all' : length lengths ≡ total_lengths = rw out at all in
    let short' : AreShort lengths = rw out at short in
    (all', short', from_all_lengths-ok lengths all' short')
