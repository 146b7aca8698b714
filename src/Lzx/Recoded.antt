-- ===== src/Lzx/Recoded.antt =====
-- src/lzx/encode.rs and src/lzx/decode.rs: the code lengths of a segment, written and read again.
use msdelta.Base.{
  ℕ, zero, suc, ◌+◌, ◌-◌, ◌^◌, ◌≤◌, ◌<◌, ◌≡◌, inl, inr, refl, sym, ap, ◌∙◌, arith, List, [], ◌∷◌,
  All, length, length-take, take, take-add, take_all, drop, get_or, none, some, lt→ltb, le→ltb,
  le_cases,
}
use msdelta.Errors.{ok}
use msdelta.Bitstream.Reader.{BitReader}
use msdelta.Bitstream.Reader
use msdelta.Bitstream.Writer
use msdelta.Bitstream.Writer.{BitWriter, finish}
use msdelta.Bitstream.Fields.{Field, IsValid, write_field, write_fields, encode}
use msdelta.Bitstream.Fields.At.{At, new-At}
use msdelta.Huffman.Codes.{codes_of}
use msdelta.Huffman.Table.{HuffmanTable, from_lengths}
use msdelta.Huffman.Symbols
use msdelta.Huffman.Prefix.{IsPrefixFree}
use msdelta.Huffman.Reading.{HasCode}
use msdelta.Huffman.Coder.{IsCoder, from_lengths-IsCoder}
use msdelta.Lzx.Symbols.{total_lengths}
use msdelta.Lzx.Lengths.{next_lengths, lengths_loop, checked_lengths, read_compression_lengths}
use msdelta.Lzx.Accepted.{AreShort}
use msdelta.Lzx.Runs.{
  Item, item_at, items_from, encode_compression_lengths, write_extra, write_items,
}
use msdelta.Lzx.Items.{item_fields}
use msdelta.Lzx.Steps.{IsRead, item_at-IsRead}

get_or-short : (xs : List ℕ) (i : ℕ) → AreShort xs → get_or xs i 0 ≤ 16
get_or-short [] i h = omega arith
get_or-short (x ∷ xs) zero h = h.0
get_or-short (x ∷ xs) (suc i) h = get_or-short xs i h.1

checked_lengths-short : (ls : List ℕ) → AreShort ls → checked_lengths ls ≡ ok ls
unfolding checked_lengths
checked_lengths-short [] h = refl
checked_lengths-short (l ∷ ls) h = rw (le→ltb (h.0), checked_lengths-short ls h.1) refl

-- The items have codes.
abbrev pub AreCoded : HuffmanTable → List Item → Type 0
AreCoded pretree items = All (λ (item : Item). HasCode pretree.lengths item.0) items

unfoldable pub items_fields : HuffmanTable → List Item → List Field → List Field
items_fields pretree [] fs = fs
items_fields pretree (item ∷ items) fs = item_fields pretree item (items_fields pretree items fs)

write_items-fields :
    (pretree : HuffmanTable) (items : List Item) (fs : List Field) (w : BitWriter)
    → write_fields (items_fields pretree items fs) w ≡ write_fields fs (write_items pretree items w)
unfolding items_fields item_fields write_items write_extra write_fields write_field
    Symbols.write_symbol
write_items-fields pretree [] fs w = refl
write_items-fields pretree ((s, none) ∷ items) fs w = write_items-fields pretree items fs _
write_items-fields pretree ((s, some (v, k)) ∷ items) fs w = write_items-fields pretree items fs _

module _ (pretree : HuffmanTable) (coder : IsCoder pretree) (lengths prev : List ℕ)
    (full : length lengths ≡ total_lengths) (prev_full : length prev ≡ total_lengths)
    (short : AreShort lengths) (prev_short : AreShort prev) where
  step :
      (i : ℕ) (inside : i < length lengths)
      → IsRead pretree coder lengths prev full prev_full i inside (item_at lengths prev i)
  step i inside =
      item_at-IsRead pretree coder lengths prev full prev_full i inside
        (get_or-short lengths i short) (get_or-short prev i prev_short)

  items-IsValid :
      (m i : ℕ) (fs : List Field)
      → AreCoded pretree (items_from m lengths prev i)
      → All IsValid fs
      → All IsValid (items_fields pretree (items_from m lengths prev i) fs)
  unfolding items_from items_fields
  items-IsValid zero i fs has h = h
  items-IsValid (suc m) i fs has h = elim (le_cases (length lengths) i) [
    | inl past ↦ rw (le→ltb past) h
    | inr inside ↦
        let (some_, fits, valid, read) = step i inside in
        let has' = rw (lt→ltb inside) at has in
        rw (lt→ltb inside) (valid _ has'.0 (items-IsValid m _ fs has'.1 h))
  ]

  loop_end :
      (n i : ℕ) (r : BitReader)
      → length lengths ≤ i
      → lengths_loop n pretree prev (take i lengths) r ≡ ok (lengths, r)
  unfolding lengths_loop
  loop_end zero i r h = rw (take_all i lengths h) refl
  loop_end (suc n) i r h =
      let enough : total_lengths ≤ length lengths = omega (arith, full) in
      rw (take_all i lengths h, le→ltb enough) refl

  loop_step :
      (n i k : ℕ) (r r1 r' : BitReader)
      → i < length lengths
      → next_lengths pretree prev (take i lengths) r ≡ ok (take k (drop i lengths), r1)
      → lengths_loop n pretree prev (take (i + k) lengths) r1 ≡ ok (lengths, r')
      → lengths_loop (suc n) pretree prev (take i lengths) r ≡ ok (lengths, r')
  unfolding lengths_loop
  loop_step n i k r r1 r' h e1 e2 =
      let more : length (take i lengths) < total_lengths =
        omega (arith, length-take i lengths, h, full) in
      rw (lt→ltb more, e1)
        (ap (λ t. lengths_loop n pretree prev t r1) (sym (take-add i k lengths)) ∙ e2)

  items-read :
      (m n i : ℕ) (r : BitReader) (fs : List Field)
      → length lengths - i ≤ m
      → length lengths - i ≤ n
      → AreCoded pretree (items_from m lengths prev i)
      → At r (items_fields pretree (items_from m lengths prev i) fs)
      → (r' : BitReader) × (lengths_loop n pretree prev (take i lengths) r ≡ ok (lengths, r'))
        × At r' fs
  unfolding items_from items_fields
  items-read zero n i r fs hm hn has a = (r, loop_end n i r (omega (arith, hm)), a)
  items-read (suc m) zero i r fs hm hn has a =
      let past : length lengths ≤ i = omega (arith, hn) in
      (r, loop_end zero i r past, rw (le→ltb past) at a)
  items-read (suc m) (suc n) i r fs hm hn has a = elim (le_cases (length lengths) i) [
    | inl past ↦ (r, loop_end (suc n) i r past, rw (le→ltb past) at a)
    | inr inside ↦
        let (some_, fits, valid, read) = step i inside in
        let k : ℕ = (item_at lengths prev i).1 in
        let has' = rw (lt→ltb inside) at has in
        let a' = rw (lt→ltb inside) at a in
        let (r1, e1, a1) = read r _ has'.0 a' in
        let (r2, e2, a2) =
          items-read m n (i + k) r1 fs (omega (arith, hm, some_)) (omega (arith, hn, some_)) has'.1
            a1 in
        (r2, loop_step n i k r r1 r2 inside e1 e2, a2)
  ]

  lengths_read :
      (r : BitReader) (fs : List Field)
      → AreCoded pretree (encode_compression_lengths lengths prev)
      → At r (items_fields pretree (encode_compression_lengths lengths prev) fs)
      → (r' : BitReader) × (read_compression_lengths r pretree prev ≡ ok (lengths, r')) × At r' fs
  unfolding encode_compression_lengths read_compression_lengths
  lengths_read r fs has a =
      let (r', e, a') =
        items-read (length lengths) total_lengths 0 r fs (omega arith) (omega (arith, full)) has
          a in
      (r', rw (e, checked_lengths-short lengths short) refl, a')

-- With a prefix-free pretree that has codes for what the compressor counts, the code lengths of a
-- segment, 872 of at most 16, that are written as runs, changes and numbers against the lengths
-- before are read back by `read_compression_lengths` from a file of less than 512 MiB.
pub read_compression_lengths-encode :
    (pl lengths prev : List ℕ) (pretree : HuffmanTable)
    → from_lengths pl ≡ ok pretree
    → IsPrefixFree pl (codes_of pl)
    → length lengths ≡ total_lengths
    → length prev ≡ total_lengths
    → AreShort lengths
    → AreShort prev
    → AreCoded pretree (encode_compression_lengths lengths prev)
    → length (finish (write_items pretree (encode_compression_lengths lengths prev) Writer.new))
      < 2 ^ 29
    → (r : BitReader) × (Reader.new
          (finish (write_items pretree (encode_compression_lengths lengths prev) Writer.new))
        ≡ ok r)
      × (r' : BitReader) × (read_compression_lengths r pretree prev ≡ ok (lengths, r'))
unfolding encode write_fields
read_compression_lengths-encode pl lengths prev pretree made free full prev_full short prev_short
      has small =
    let coder : IsCoder pretree = from_lengths-IsCoder pl pretree made free in
    let items : List Item = encode_compression_lengths lengths prev in
    let written = write_items-fields pretree items [] Writer.new in
    let valid : All IsValid (items_fields pretree items []) =
      (unfold encode_compression_lengths in
        items-IsValid pretree coder lengths prev full prev_full short prev_short (length lengths) 0
          [] has tt) in
    let (r, e, a) = new-At (items_fields pretree items []) valid (rw written small) in
    let (r', e', a') =
      lengths_read pretree coder lengths prev full prev_full short prev_short r [] has a in
    (r, rw written at e, r', e')
