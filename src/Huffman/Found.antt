-- ===== src/Huffman/Found.antt =====
-- src/huffman.rs: the table lookup finds the symbol whose code comes next.
use msdelta.Base.{
  ℕ, zero, suc, ◌+◌, ◌-◌, ◌*◌, ◌/◌, ◌%◌, ◌^◌, ◌≤◌, ◌<◌, ◌≡◌, ◌≢◌, ◌⊎◌, inl, inr, refl, sym, ap, ◌∙◌,
  arith, false, List, length, get_or, replicate, bit_and, bit_or, lt→leb, eq→==, ne→==, le_cases,
  eq_cases,
}
use msdelta.Base.Bits.{two-pow-add, two-pow-pos, bit_and_mask, mod-mod_two-pow, mod-two-pow-suc}
use msdelta.Base.Bits.Or.{bit_or_above, bit_or-lt, le-bit_or}
use msdelta.Bitstream.Words.{trailing_zeros}
use msdelta.Huffman.Table.{
  DecodeEntry, no_entry, is_skipped, fill_symbols, table_of, extras, last_slot, build_slots,
}
use msdelta.Huffman.Symbols.{entry_index}
use msdelta.Huffman.Arrays.{length-replicate_of, AllPairs, AllPairs-mono, AllPairs-both}
use msdelta.Huffman.Shape.{Matches, Matches-parts}
use msdelta.Huffman.Slots.{IsNarrow, last_slot-lt, slot_within, slot_unused}
use msdelta.Huffman.Filled.{
  length-fill_symbols, slot_at, all_slots, IsReady, masked, fill_symbol-hits, fill_symbol-other,
}
use msdelta.Huffman.Prefix.{
  IsCode, Apart, IsPrefixFree, Apart-Matches, AllPairs_at, Apart-all, IsReady-all, skipped_or,
}
use msdelta.Huffman.Selected.{
  fill_symbols-find, fill_zero-leaves, length-fill_zero, fill_zero-finds,
}
use native.Mathlib.Nat.{mod-eq_of_lt, zero-mod, mul-mod_right}

-- A word whose low `n` bits are 0.
le-trailing_zeros : (w n x : ℕ) → n ≤ w → x % 2 ^ n ≡ 0 → n ≤ trailing_zeros w x
unfolding trailing_zeros
le-trailing_zeros w zero x h e = omega arith
le-trailing_zeros zero (suc n) x h e = absurd (omega arith)
le-trailing_zeros (suc w) (suc n) x h e =
    let even : x % 2 ≢ 1 = omega (arith, mod-two-pow-suc x n, e) in
    let half : x / 2 % 2 ^ n ≡ 0 = omega (arith, mod-two-pow-suc x n, e) in
    rw (ne→== even) (omega (arith, le-trailing_zeros w n (x / 2) (omega arith) half))

-- A word that is not 0.
trailing_zeros-lt : (w x : ℕ) → x % 2 ^ w ≢ 0 → trailing_zeros w x < w
unfolding trailing_zeros
trailing_zeros-lt zero x h = absurd (h (omega arith))
trailing_zeros-lt (suc w) x h = elim (eq_cases (x % 2) 1) [
  | inl odd ↦ rw (eq→== odd) (omega arith)
  | inr even ↦
      let half : x / 2 % 2 ^ w ≢ 0 = omega (arith, mod-two-pow-suc x w, h, even) in
      rw (ne→== even) (omega (arith, trailing_zeros-lt w (x / 2) half))
]

bit_and-zero : (y : ℕ) → bit_and y 0 ≡ 0
bit_and-zero y = bit_and_mask 0 y ∙ (omega arith)

-- A number whose lowest one has `k` zeros below it.
low_zeros : (n k c : ℕ) → n ≤ k → c % 2 ^ (k + 1) ≡ 2 ^ k → c % 2 ^ n ≡ 0
low_zeros n k c le low =
    let e : n + (k - n) ≡ k = omega (arith, le) in
    let split : 2 ^ k ≡ 2 ^ n * 2 ^ (k - n) = rw e at (two-pow-add n (k - n)) in
    let multiple : 2 ^ k % 2 ^ n ≡ 0 =
      ap (λ (t : ℕ). t % 2 ^ n) split ∙ mul-mod_right (2 ^ n) (2 ^ (k - n)) in
    sym (mod-mod_two-pow c n (k + 1) (omega (arith, le))) ∙ ap (λ (t : ℕ). t % 2 ^ n) low ∙ multiple

low_one : (k c : ℕ) → c % 2 ^ (k + 1) ≡ 2 ^ k → c ≢ 0
low_one k c low z =
    let none_ : c % 2 ^ (k + 1) ≡ 0 = ap (λ (t : ℕ). t % 2 ^ (k + 1)) z ∙ zero-mod (2 ^ (k + 1)) in
    omega (arith, none_, low, two-pow-pos k)

module _ (ls cs : List ℕ) (codes : AllPairs IsCode ls cs) (free : IsPrefixFree ls cs) (p : ℕ)
    (hl : p < length ls) (hc : p < length cs) (used : 0 < get_or ls p 0) (bits : ℕ)
    (word : bits < 2 ^ 32) (m : Matches bits (get_or ls p 0) (get_or cs p 0)) where
  abbrev last : ℕ
  last = last_slot ls cs 0

  abbrev mx : List ℕ
  mx = extras ls cs (replicate 32 0)

  abbrev total : ℕ
  total = (build_slots 32 0 last mx 0).1

  abbrev ws : ℕ
  ws = bit_or bits 0x8000_0000

  abbrev fresh : List DecodeEntry
  fresh = replicate (total + 1) no_entry

  abbrev filled : List DecodeEntry
  filled = fill_symbols (all_slots last mx) mx 0 ls cs fresh

  IsCode-at : IsCode (get_or ls p 0) (get_or cs p 0)
  IsCode-at = AllPairs_at IsCode ls cs p hl hc codes

  ws-Matches : Matches ws (get_or ls p 0) (get_or cs p 0)
  ws-Matches = bit_or_above (get_or ls p 0) 31 bits (omega (arith, IsCode-at.0)) ∙ m

  length-filled : length filled ≡ total + 1
  length-filled =
      length-fill_symbols (all_slots last mx) mx 0 ls cs fresh
      ∙ length-replicate_of (total + 1) no_entry

  -- What the lookup promises.
  abbrev pub Finds : Type 0
  Finds =
      (entry_index (table_of ls cs) bits < length (table_of ls cs).entries)
      × (get_or (table_of ls cs).entries (entry_index (table_of ls cs) bits) no_entry
          ≡ record { symbol = p % 2 ^ 16; len = get_or ls p 0 })

  finds_some : get_or cs p 0 ≢ 0 → Finds
  unfolding table_of entry_index
  finds_some some_ =
      let len : ℕ = get_or ls p 0 in
      let code : ℕ = get_or cs p 0 in
      let kept : is_skipped len code ≡ false =
        rw (ne→== {a = len} {b = 0} (omega (arith, used)), ne→== some_) in
      elim (AllPairs_at (IsReady last mx) ls cs p hl hc (IsReady-all ls cs codes)) [
        | inl skipped ↦ cc
        | inr (k, e, s, low, room) ↦
            let few : k < 32 = omega (arith, s.len_is, s.short) in
            let (one, at_k, high) = Matches-parts ws len code k e s ws-Matches in
            let x : ℕ = ws / 2 ^ (k + 1) in
            let (place, inside) = masked last mx k x few low in
            let zero_k : 0 + k ≡ k = omega arith in
            let below = slot_within last mx 32 0 0 k few (omega (arith, low)) in
            let idx : ℕ = x % 2 ^ get_or mx k 0 + (slot_at last mx k).offset in
            let lt : idx < total = omega (arith, inside, below) in
            let narrow : k < 31 = omega (arith, s.len_is, s.short) in
            let found =
              fill_symbols-find (all_slots last mx) mx (IsReady last mx) idx p 0 ls cs fresh hl hc
                kept (omega (arith, lt, length-replicate_of (total + 1) no_entry))
                (λ t fs h. fill_symbol-hits last mx len code k e s low room ws t fs ws-Matches h)
                (λ l c ready apart. elim ready [
                  | inl skipped ↦ inl skipped
                  | inr (k', e', s', low', room') ↦ inr (λ t es.
                      fill_symbol-other last mx l c k' e' s' low' room' ws k t es one few low (
                        Apart-Matches ws len code l c used (omega (arith, s'.len_is)) apart
                          ws-Matches))
                ])
                (IsReady-all ls cs codes) free in
            let idx_is : entry_index (table_of ls cs) bits ≡ idx =
              rw (at_k, lt→leb narrow, place) refl in
            let zero_p : 0 + p ≡ p = omega arith in
            rw idx_is (
              omega (arith, lt, length-fill_zero total 0 ls cs filled, length-filled),
              fill_zero-leaves total idx 0 ls cs filled (omega (arith, lt)) ∙ rw zero_p at found,
            )
      ]

  -- The code 0 is the beginning of no other, so the zeros of the others are fewer than its bits.
  finds_zero : get_or cs p 0 ≡ 0 → Finds
  unfolding table_of entry_index
  finds_zero z =
      let len : ℕ = get_or ls p 0 in
      let narrow =
        AllPairs-mono _ (IsNarrow len) ls cs (λ l c x. narrower l c x.0 x.1)
          (AllPairs-both IsCode _ ls cs codes (Apart-all ls cs p hl hc free)) in
      let low : last < len = last_slot-lt ls cs 0 len used narrow in
      let zeros : len ≤ trailing_zeros 32 ws =
        le-trailing_zeros 32 len ws (omega (arith, IsCode-at.0)) (ws-Matches ∙ z) in
      let set_ : trailing_zeros 32 ws < 32 = trailing_zeros-lt 32 ws ws-ne in
      let k : ℕ = trailing_zeros 32 ws in
      let (mask, offset) = slot_unused last mx 32 0 0 k set_ (omega (arith, low, zeros)) in
      let idx_is : entry_index (table_of ls cs) bits ≡ total =
        rw (mask, offset, bit_and-zero) (omega arith) in
      let zero_p : 0 + p ≡ p = omega arith in
      rw idx_is (
        omega (arith, length-fill_zero total 0 ls cs filled, length-filled),
        rw zero_p at (
            fill_zero-finds total p 0 ls cs filled hl hc used z free
              (omega (arith, length-filled))),
      )
    where
      ws-ne : ws % 2 ^ 32 ≢ 0
      ws-ne =
          let (lo, hi) = le-bit_or 32 bits 0x8000_0000 word (omega arith) in
          let lt = bit_or-lt 32 bits 0x8000_0000 word (omega arith) in omega (arith, hi, lt)

      narrower :
          (l c : ℕ)
          → IsCode l c
          → (c ≡ get_or cs p 0) ⊎ Apart (get_or ls p 0) (get_or cs p 0) l c
          → IsNarrow (get_or ls p 0) l c
      narrower l c code_is x = elim (skipped_or l c code_is) [
        | inl skipped ↦ inl skipped
        | inr (some_, (k, e, s)) ↦ elim (le_cases (get_or ls p 0) k) [
          | inr below ↦ inr (omega (arith, below, s.ctz_is))
          | inl long ↦
              let none_ : c % 2 ^ get_or ls p 0 ≡ 0 = low_zeros (get_or ls p 0) k c long s.low_is in
              elim x [
                | inl same ↦ absurd (low_one k c s.low_is (same ∙ z))
                | inr apart ↦ absurd (
                    Apart-Matches c (get_or ls p 0) (get_or cs p 0) l c used some_ apart
                      (none_ ∙ sym z) (mod-eq_of_lt code_is.1))
              ]
        ]
      ]

  pub finds : Finds
  finds = elim (eq_cases (get_or cs p 0) 0) [ inl z ↦ finds_zero z | inr some_ ↦ finds_some some_ ]
