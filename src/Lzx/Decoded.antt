-- ===== src/Lzx/Decoded.antt =====
-- src/lzx/decode.rs: what the decompressor makes.
use msdelta.Base.{
  Bool, ℕ, zero, suc, ◌+◌, ◌-◌, ◌/◌, ◌%◌, ◌^◌, ◌≤◌, ◌<◌, ◌≡◌, ◌&&◌, min, inl, inr, ap, arith,
  Option, none, some, List, [], ◌∷◌, ◌++◌, length, length-append, ltb, ◌==◌, lt→ltb, le→ltb,
  le_cases, eq_cases, eq→==, ne→==, Bool-cases,
}
use msdelta.Base.Int.{ℤ, pos, negsuc, ◌-ℤ◌, as_i64}
use msdelta.Errors.{ok, >>=-ok, ok-injective, unless-ok}
use msdelta.Bitstream.Reader.{BitReader, remaining}
use msdelta.Huffman.Symbols
use msdelta.Lzx.Ops.{source_copy_raw}
use msdelta.Lzx.Rift.Serial.{wrapping}
use msdelta.Lzx.Rift.Offsets.{segment_at}
use msdelta.Lzx.Copy.{Written, traced}
use msdelta.Lzx.Traced.{Traces, TracedBy, Grows, copy_one-Grows}
use msdelta.Lzx.Symbols.{SegmentTables, decode_offset, decode_length, read_match, read_symbol}
use msdelta.Lzx.Decoder.{
  Input, State, walk, chunk_of, copy_match, push_literal, apply_symbol, round, rounds, tables_at,
  pass_segments,
}

-- A symbol stands for a byte at least.
read_match-length :
    (tables : SegmentTables) (idx : ℕ) (r : BitReader) {v : (ℕ × ℕ) × BitReader}
    → read_match tables idx r ≡ ok v
    → 0 < v.0.1
unfolding read_match
read_match-length tables idx r e =
    let (offset, e1, e2) = >>=-ok (decode_offset tables (idx / 8) r) _ e in
    let (len, e3, e4) = >>=-ok (decode_length tables (idx % 8) offset.1) _ e2 in
    let (fits, e5) = unless-ok _ _ e4 in
    let same : len.0 + 1 ≡ _ = ap (λ t. t.0.1) (ok-injective e5) in omega (arith, same)

read_symbol-length :
    (tables : SegmentTables) (r : BitReader) {v : (ℕ × ℕ) × BitReader}
    → read_symbol tables r ≡ ok v
    → 0 < v.0.1
unfolding read_symbol
read_symbol-length tables r e =
    let (raw, e1, e2) = >>=-ok (Symbols.read_symbol tables.main r) _ e in
    elim (Bool-cases (ltb raw.0 0x100)) [
      | inl literal ↦
          let e3 = rw literal at e2 in
          let same : 1 ≡ _ = ap (λ t. t.0.1) (ok-injective e3) in omega (arith, same)
      | inr longer ↦ let e3 = rw longer at e2 in read_match-length tables (raw.0 - 0x100) raw.1 e3
    ]

chunk_bounds :
    (next_bp : ℤ) (p remaining : ℕ)
    → 0 < remaining
    → (0 < chunk_of next_bp p remaining) × (chunk_of next_bp p remaining ≤ remaining)
unfolding chunk_of
chunk_bounds next_bp p remaining h = (omega arith, omega arith)

module _ (input : Input) (tracking : Bool) where
  -- The position says how much of the target there is, and the places of its bytes are true.
  pub record IsGood (s : State) : Type 0 where
    pub counted : length s.written.output + length input.reference ≡ s.position
    pub inside : s.position ≤ input.end
    pub traces : TracedBy input.reference tracking s.written.output s.written.copy_src

module _ (input : Input) (tracking : Bool) (small : input.end < 2 ^ 63)
    (ref_small : length input.reference < 2 ^ 63) where
  walk-Grows :
      (fuel p remaining : ℕ) (w w' : Written)
      → remaining ≤ fuel
      → remaining < 2 ^ 63
      → TracedBy input.reference tracking w.output w.copy_src
      → walk fuel input p remaining w ≡ ok w'
      → Grows input.reference tracking remaining w w'
  unfolding walk
  walk-Grows zero p remaining w w' h short k e = rw (← ok-injective e) (omega (arith, h), k)
  walk-Grows (suc fuel) p remaining w w' h short k e = elim (eq_cases remaining 0) [
    | inl done ↦ let e' = rw (eq→== done) at e in rw (← ok-injective e') (omega (arith, done), k)
    | inr more ↦
        let e' = rw (ne→== more) at e in
        let segment = segment_at input.ort (as_i64 p) in
        let chunk : ℕ = chunk_of segment.1 p remaining in
        let (some_, most) = chunk_bounds segment.1 p remaining (omega (arith, more)) in
        let (w1, e1, e2) = >>=-ok _ _ e' in
        let (one, k1) =
          copy_one-Grows input.reference tracking p (wrapping (pos 0 -ℤ segment.0)) chunk w w1
            (omega (arith, most, short)) ref_small k e1 in
        let (rest, k2) =
          walk-Grows fuel (p + chunk) (remaining - chunk) w1 w' (omega (arith, some_, h))
            (omega (arith, short)) k1 e2 in
        (omega (arith, one, rest, most), k2)
  ]

  copy_match-Grows :
      (raw_offset : ℕ) (distance : ℤ) (position copy_len : ℕ) (w w' : Written)
      → copy_len < 2 ^ 63
      → TracedBy input.reference tracking w.output w.copy_src
      → copy_match input raw_offset distance position copy_len w ≡ ok w'
      → Grows input.reference tracking copy_len w w'
  unfolding copy_match
  copy_match-Grows raw_offset distance position copy_len w w' short k e =
      elim (Bool-cases (raw_offset == source_copy_raw)) [
        | inl source ↦
            let e' = rw source at e in
            walk-Grows copy_len position copy_len w w' (omega arith) short k e'
        | inr other ↦
            let e' = rw other at e in
            copy_one-Grows input.reference tracking position distance copy_len w w' short ref_small
              k e'
      ]

  push_literal-TracedBy :
      (b : ℕ) (w : Written)
      → TracedBy input.reference tracking w.output w.copy_src
      → Grows input.reference tracking 1 w (push_literal b w)
  unfolding push_literal
  push_literal-TracedBy b w k =
      (omega (arith, length-append w.output (b ∷ [])), literal w.output w.copy_src k)
    where
      traces :
          (bs : List ℕ) (qs : List ℤ)
          → Traces input.reference bs qs
          → Traces input.reference (bs ++ (b ∷ [])) (qs ++ (negsuc 0 ∷ []))
      traces [] [] h = (tt, tt)
      traces [] (q ∷ qs) h = absurd h
      traces (c ∷ bs) [] h = absurd h
      traces (c ∷ bs) (q ∷ qs) h = (h.0, traces bs qs h.1)

      literal :
          (bs : List ℕ) (src : Option (List ℤ))
          → TracedBy input.reference tracking bs src
          → TracedBy input.reference tracking
              (bs ++ (b ∷ []))
              (traced (λ p. p ++ (negsuc 0 ∷ [])) src)
      literal bs none h = h
      literal bs (some qs) h = traces bs qs h

  apply_symbol-IsGood :
      (raw_offset match_len : ℕ) (s s' : State)
      → 0 < match_len
      → s.position < input.end
      → IsGood input tracking s
      → apply_symbol input raw_offset match_len s ≡ ok s'
      → IsGood input tracking s' × (s.position < s'.position)
  unfolding apply_symbol
  apply_symbol-IsGood raw_offset match_len s s' some_ before g e =
      elim (Bool-cases (match_len == 1 && ltb raw_offset 256)) [
        | inl literal ↦
            let e' = rw literal at e in
            let (one, k) = push_literal-TracedBy (raw_offset % 2 ^ 8) s.written g.traces in
            rw (← ok-injective e') (
              record {
                counted = omega (arith, one, g.counted);
                inside = omega (arith, before);
                traces = k;
              },
              omega arith,
            )
        | inr copy ↦
            let e' = rw copy at e in
            let copy_len : ℕ = min match_len (input.end - s.position) in
            let (w, e1, e2) = >>=-ok _ _ e' in
            let (grown, k) =
              copy_match-Grows raw_offset _ s.position copy_len s.written w (omega (arith, small))
                g.traces e1 in
            rw (← ok-injective e2) (
              record {
                counted = omega (arith, grown, g.counted);
                inside = omega (arith, before);
                traces = k;
              },
              omega (arith, some_, before),
            )
      ]

  round-IsGood :
      (s s' : State)
      → s.position < input.end
      → IsGood input tracking s
      → round input s ≡ ok s'
      → IsGood input tracking s' × (s.position < s'.position)
  unfolding round
  round-IsGood s s' before g e =
      let seg_idx : ℕ =
        pass_segments (length input.format.segments) input.format s.position s.seg_idx in
      let (left, e1) = unless-ok _ _ e in
      let (symbol, e2, e3) = >>=-ok _ _ e1 in
      apply_symbol-IsGood symbol.0.0 symbol.0.1 (record s { reader = symbol.1; seg_idx = seg_idx })
        s' (read_symbol-length (tables_at input.format.segments seg_idx) s.reader e2) before
        (record { counted = g.counted; inside = g.inside; traces = g.traces }) e3

  -- With a round for each byte that is missing the loop ends at the target's end, whatever the patch
  -- holds, or with the error of a round.
  pub rounds-IsGood :
      (fuel : ℕ) (s s' : State)
      → input.end ≤ s.position + fuel
      → IsGood input tracking s
      → rounds fuel input s ≡ ok s'
      → IsGood input tracking s' × (s'.position ≡ input.end)
  unfolding rounds
  rounds-IsGood zero s s' h g e = rw (← ok-injective e) (g, omega (arith, h, g.inside))
  rounds-IsGood (suc fuel) s s' h g e = elim (le_cases input.end s.position) [
    | inl done ↦
        let e' = rw (le→ltb done) at e in rw (← ok-injective e') (g, omega (arith, done, g.inside))
    | inr more ↦
        let e' = rw (lt→ltb more) at e in
        let (s1, e1, e2) = >>=-ok _ _ e' in
        let (g1, on) = round-IsGood s s1 more g e1 in
        rounds-IsGood fuel s1 s' (omega (arith, h, on)) g1 e2
  ]
