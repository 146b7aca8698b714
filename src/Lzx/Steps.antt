-- ===== src/Lzx/Steps.antt =====
-- src/lzx/encode.rs and src/lzx/decode.rs: the item that is written at a place, read again.
use msdelta.Base.{
  ℕ, ◌+◌, ◌-◌, ◌%◌, ◌≤◌, ◌<◌, ◌≡◌, ◌≢◌, inl, inr, refl, sym, ap, ◌∙◌, arith, Bool, true, false,
  ◌&&◌, List, [], ◌∷◌, All, length, length-take, take, drop, get_or, drop-get_or, none, ltb, leb,
  ◌==◌, le→ltb, lt→leb, le→leb, ne→==, ==→eq, ltb→lt, leb→le, Bool-cases,
}
use msdelta.Errors.{ok}
use msdelta.Bitstream.Reader.{BitReader}
use msdelta.Bitstream.Fields.{Field, IsValid}
use msdelta.Bitstream.Fields.At.{At, next_plain}
use msdelta.Huffman.Table.{HuffmanTable}
use msdelta.Huffman.Reading.{HasCode}
use msdelta.Huffman.Coder.{IsCoder, symbol_field-IsValid, next_symbol}
use msdelta.Lzx.Symbols.{total_lengths}
use msdelta.Lzx.Lengths.{run_of, next_lengths}
use msdelta.Lzx.Runs.{Item, encode_run_count, kept_run, same_run, single, item_at}
use msdelta.Lzx.Expanded.{
  run_code, IsRun, kept_run-IsRun, same_run-IsRun, take-drop_same, replicate-take-drop, get_or-take,
}
use mathlib.Core.Path.{subst}
use msdelta.Lzx.Items.{item_fields, next_lengths-run, next_lengths-single}

-- The item at `i` is read back as the lengths that it stands for, behind those before `i`.
module _ (pretree : HuffmanTable) (coder : IsCoder pretree) (lengths prev : List ℕ)
    (full : length lengths ≡ total_lengths) (prev_full : length prev ≡ total_lengths) (i : ℕ)
    (inside : i < length lengths) where
  abbrev before : List ℕ
  before = take i lengths

  length-before : length before ≡ i
  length-before = length-take i lengths ∙ omega (arith, inside)

  -- What a run of each kind stands for.
  run_of-kept :
      (base : ℕ)
      → 8 ≤ base
      → IsRun
          (λ j. get_or lengths j 0 == get_or prev j 0)
          i
          (length lengths - 1)
          (kept_run lengths prev i)
      → run_of base (kept_run lengths prev i) prev before
        ≡ ok (take (kept_run lengths prev i) (drop i lengths))
  unfolding run_of
  run_of-kept base h run =
      let m : ℕ = kept_run lengths prev i in
      let fits : i + m ≤ total_lengths = omega (arith, run.within, full) in
      let same =
        take-drop_same m i prev lengths (omega (arith, fits, prev_full)) (omega (arith, fits, full))
          (λ j lt. sym (==→eq (run.passes j lt))) in
      rw (length-before, le→ltb fits, le→leb h) (ap ok same)

  run_of-same :
      (base : ℕ)
      → base < 8
      → 0 < i
      → IsRun
          (λ j. get_or lengths j 0 == get_or lengths (i - 1) 0)
          i
          (length lengths - 1)
          (same_run lengths i)
      → run_of base (same_run lengths i) prev before
        ≡ ok (take (same_run lengths i) (drop i lengths))
  unfolding run_of
  run_of-same base h later run =
      let m : ℕ = same_run lengths i in
      let fits : i + m ≤ total_lengths = omega (arith, run.within, full) in
      let some_ : i ≢ 0 = omega (arith, later) in
      let last_is : get_or before (i - 1) 0 ≡ get_or lengths (i - 1) 0 =
        get_or-take i (i - 1) lengths (omega (arith, later)) in
      let same =
        replicate-take-drop m i (get_or lengths (i - 1) 0) lengths (omega (arith, fits, full))
          (λ j lt. ==→eq (run.passes j lt)) in
      rw (length-before, le→ltb fits, lt→leb h, ne→== some_, last_is) (ap ok same)

  -- An item and the count of lengths that it stands for.
  abbrev pub IsRead : Item × ℕ → Type 0
  IsRead p =
      (0 < p.1)
      × (i + p.1 ≤ length lengths)
      × ((fs : List Field)
          → HasCode pretree.lengths p.0.0
          → All IsValid fs
          → All IsValid (item_fields pretree p.0 fs))
      × ((r : BitReader) (fs : List Field)
          → HasCode pretree.lengths p.0.0
          → At r (item_fields pretree p.0 fs)
          → (r' : BitReader) × (next_lengths pretree prev before r
              ≡ ok (take p.1 (drop i lengths), r'))
            × At r' fs)

  run-IsRead :
      (base count : ℕ)
      → base % 8 ≡ 0
      → 4 ≤ count
      → count ≤ 127
      → i + count ≤ length lengths
      → ((k : ℕ)
          → k ≤ 6
          → run_of (k + 1 + base) count prev before ≡ ok (take count (drop i lengths)))
      → IsRead (((encode_run_count count).0 + base + 23, (encode_run_count count).1), count)
  unfolding item_fields IsValid
  run-IsRead base count whole lo hi fits runs =
      let c = run_code count lo hi in
      rw (c.code_is) (
        omega (arith, lo),
        fits,
        λ fs has valid. (symbol_field-IsValid coder has, ((omega (arith, c.few), c.fits), valid)),
        λ r fs has a.
            let (r1, e1, a1) = next_symbol coder has a in
            let (r2, e2, a2) = next_plain a1 in
            (
              r2,
              next_lengths-run pretree prev before _ base count c r r1 r2 whole e1 e2
                  (runs c.k c.few),
              a2,
            ),
      )

  single-IsRead :
      get_or lengths i 0 ≤ 16
      → get_or prev i 0 ≤ 16
      → IsRead ((single (get_or lengths i 0) (get_or prev i 0), none), 1)
  unfolding item_fields
  single-IsRead h k =
      let one : take 1 (drop i lengths) ≡ get_or lengths i 0 ∷ [] =
        ap (λ t. take 1 t) (drop-get_or i lengths 0 inside) in
      (
        omega arith,
        omega (arith, inside),
        λ fs has valid. (symbol_field-IsValid coder has, valid),
        λ r fs has a.
            let (r1, e1, a1) = next_symbol coder has a in
            (
              r1,
              next_lengths-single pretree prev before (get_or lengths i 0) r r1 h
                    (rw length-before k) (rw length-before e1)
                  ∙ ap (λ t. ok (t, r1)) (sym one),
              a1,
            ),
      )

  pub item_at-IsRead :
      get_or lengths i 0 ≤ 16 → get_or prev i 0 ≤ 16 → IsRead (item_at lengths prev i)
  unfolding item_at
  item_at-IsRead h k =
      let kept = kept_run-IsRun lengths prev i inside in
      let same = same_run-IsRun lengths i inside in
      elim (Bool-cases (ltb (i + 3) (length lengths) && leb 4 (kept_run lengths prev i))) [
        | inl a ↦ rw a (
            run-IsRead 8 (kept_run lengths prev i) refl (leb→le (both a).1) kept.short
              (omega (arith, kept.within)) (λ c few. run_of-kept (c + 1 + 8) (omega arith) kept))
        | inr a ↦ elim (Bool-cases (ltb 0 i && leb 4 (same_run lengths i))) [
          | inl b ↦
              let zero_base : (encode_run_count (same_run lengths i)).0 + 0
                  ≡ (encode_run_count (same_run lengths i)).0 =
                omega arith in
              let read =
                run-IsRead 0 (same_run lengths i) refl (leb→le (both b).1) same.short
                  (omega (arith, same.within))
                  (λ c few.
                    run_of-same (c + 1 + 0) (omega (arith, few)) (ltb→lt (both b).0) same) in
              rw (a, b)
                (subst
                  (λ (t : ℕ).
                    IsRead
                      ((t + 23, (encode_run_count (same_run lengths i)).1), same_run lengths i))
                  zero_base read)
          | inr b ↦ rw (a, b) (single-IsRead h k)
        ]
      ]
    where
      both : {x y : Bool} → (x && y) ≡ true → (x ≡ true) × (y ≡ true)
      both {x = true} e = (refl, e)
      both {x = false} e = cc
