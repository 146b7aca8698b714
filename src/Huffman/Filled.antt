-- ===== src/Huffman/Filled.antt =====
-- src/huffman.rs: the loops that fill a decode table.
use msdelta.Base.{
  ℕ, zero, suc, ◌+◌, ◌-◌, ◌*◌, ◌/◌, ◌%◌, ◌^◌, ◌≤◌, ◌<◌, ◌≡◌, ◌≢◌, ◌⊎◌, inl, inr, refl, sym, ap, ◌∙◌,
  arith, true, List, [], ◌∷◌, length, length-set, get_or, set, bit_and, le_cases, eq_cases,
  Bool-cases,
}
use msdelta.Base.Bits.{
  two-pow-pos, two-pow_mono, bit_and_mask, join-lt, mod-mod_two-pow, div_two-pow-lt,
}
use msdelta.Huffman.Table.{
  Slot, DecodeEntry, no_entry, is_skipped, fill_from, fill_symbol, fill_symbols, build_slots,
}
use msdelta.Huffman.Arrays.{get_or-set_self, get_or-set_other}
use msdelta.Huffman.Shape.{IsShape, Matches, Matches-parts, parts-Matches}
use msdelta.Huffman.Slots.{slot_of, slot_mask, slot_within, slots_apart}
use native.Mathlib.Nat.{mod-eq_of_lt, mod-lt, div-add-mod, add-mul-mod_self_left}

pub length-fill_from :
    (n f base stride : ℕ) (e : DecodeEntry) (es : List DecodeEntry)
    → length (fill_from n f base stride e es) ≡ length es
unfolding fill_from
length-fill_from zero f base stride e es = refl
length-fill_from (suc n) f base stride e es =
    length-fill_from n (suc f) base stride e (set es (base + f * stride) e)
    ∙ length-set es (base + f * stride) e

pub length-fill_symbol :
    (slots : List Slot) (mx : List ℕ) (sym len code : ℕ) (es : List DecodeEntry)
    → length (fill_symbol slots mx sym len code es) ≡ length es
unfolding fill_symbol
length-fill_symbol slots mx sym len code es = length-fill_from _ 0 _ _ _ es

pub length-fill_symbols :
    (slots : List Slot) (mx : List ℕ) (sym : ℕ) (ls cs : List ℕ) (es : List DecodeEntry)
    → length (fill_symbols slots mx sym ls cs es) ≡ length es
unfolding fill_symbols fill_symbol
length-fill_symbols slots mx sym [] cs es = refl
length-fill_symbols slots mx sym (len ∷ ls) [] es = refl
length-fill_symbols slots mx sym (len ∷ ls) (code ∷ cs) es =
    elim (Bool-cases (is_skipped len code)) [
      | inl skipped ↦ rw skipped (length-fill_symbols slots mx (suc sym) ls cs es)
      | inr kept ↦
          rw kept (length-fill_symbols slots mx (suc sym) ls cs _ ∙ length-fill_from _ 0 _ _ _ es)
    ]

-- The write at a place, once made, is not undone by the others of its loop.
fill_from-stays :
    (n f base stride idx : ℕ) (e : DecodeEntry) (es : List DecodeEntry)
    → idx < length es
    → get_or es idx no_entry ≡ e
    → get_or (fill_from n f base stride e es) idx no_entry ≡ e
unfolding fill_from
fill_from-stays zero f base stride idx e es h k = k
fill_from-stays (suc n) f base stride idx e es h k =
    let at_f : ℕ = base + f * stride in
    let next : get_or (set es at_f e) idx no_entry ≡ e = elim (eq_cases at_f idx) [
      | inl here ↦ rw here (get_or-set_self es idx e no_entry h)
      | inr there ↦ get_or-set_other es at_f idx e no_entry there ∙ k
    ] in
    fill_from-stays n (suc f) base stride idx e (set es at_f e)
      (omega (arith, h, length-set es at_f e)) next

fill_from-hits :
    (n f base stride idx g : ℕ) (e : DecodeEntry) (es : List DecodeEntry)
    → idx < length es
    → f ≤ g
    → g < f + n
    → idx ≡ base + g * stride
    → get_or (fill_from n f base stride e es) idx no_entry ≡ e
unfolding fill_from
fill_from-hits zero f base stride idx g e es h lo hi is = absurd (omega arith)
fill_from-hits (suc n) f base stride idx g e es h lo hi is = elim (eq_cases f g) [
  | inl here ↦
      let same : base + f * stride ≡ idx = ap (λ (t : ℕ). base + t * stride) here ∙ sym is in
      rw same (
        fill_from-stays n (suc f) base stride idx e (set es idx e)
          (omega (arith, h, length-set es idx e)) (get_or-set_self es idx e no_entry h))
  | inr later ↦
      fill_from-hits n (suc f) base stride idx g e (set es (base + f * stride) e)
        (omega (arith, h, length-set es (base + f * stride) e)) (omega (arith, lo, later))
        (omega (arith, hi)) is
]

fill_from-misses :
    (n f base stride idx : ℕ) (e : DecodeEntry) (es : List DecodeEntry)
    → (get_or (fill_from n f base stride e es) idx no_entry ≡ get_or es idx no_entry)
      ⊎ ((g : ℕ) × (g < f + n) × (idx ≡ base + g * stride))
unfolding fill_from
fill_from-misses zero f base stride idx e es = inl refl
fill_from-misses (suc n) f base stride idx e es = elim (eq_cases (base + f * stride) idx) [
  | inl here ↦ inr (f, omega arith, sym here)
  | inr there ↦ elim (fill_from-misses n (suc f) base stride idx e (set es (base + f * stride) e)) [
    | inl kept ↦ inl (kept ∙ get_or-set_other es (base + f * stride) idx e no_entry there)
    | inr (g, lt, is) ↦ inr (g, omega (arith, lt), is)
  ]
]

module _ (last : ℕ) (mx : List ℕ) where
  abbrev pub slot_at : ℕ → Slot
  slot_at k = slot_of last mx 32 0 0 k

  abbrev pub all_slots : List Slot
  all_slots = (build_slots 32 0 last mx 0).0

  -- A symbol that the table finds by its zeros, in a slot that is wide enough.
  abbrev pub IsReady : ℕ → ℕ → Type 0
  IsReady len code =
      (is_skipped len code ≡ true)
      ⊎ ((k : ℕ) × (e : ℕ) × IsShape len code k e × (k ≤ last) × (e ≤ get_or mx k 0))

  -- The place in a slot that some bits behind the lowest one stand for.
  pub masked :
      (k x : ℕ)
      → k < 32
      → k ≤ last
      → (bit_and x (slot_at k).mask ≡ x % 2 ^ get_or mx k 0)
        × (x % 2 ^ get_or mx k 0 ≤ (slot_at k).mask)
  masked k x few used =
      let e : 0 + k ≡ k = omega arith in
      let mask : (slot_at k).mask ≡ 2 ^ get_or mx k 0 - 1 =
        rw e at (slot_mask last mx 32 0 0 k few (omega (arith, used))) in
      let m : ℕ = get_or mx k 0 in
      (
        ap (λ (t : ℕ). bit_and x t) mask ∙ bit_and_mask m x,
        omega (arith, mask, mod-lt x (two-pow-pos m)),
      )

  module _ (len code k e : ℕ) (s : IsShape len code k e) (used : k ≤ last)
      (room : e ≤ get_or mx k 0) where
    few : k < 32
    few = omega (arith, s.len_is, s.short)

    extra_is : len - k - 1 ≡ e
    extra_is = omega (arith, s.len_is)

    -- The first of the symbol's entries.
    base_is :
        bit_and (code / 2 ^ (k + 1)) (slot_at k).mask + (slot_at k).offset
        ≡ code / 2 ^ (k + 1) + (slot_at k).offset
    base_is =
        let x : ℕ = code / 2 ^ (k + 1) in
        let small : x % 2 ^ get_or mx k 0 ≡ x =
          mod-eq_of_lt (omega (arith, s.high_lt, two-pow_mono e (get_or mx k 0) room)) in
        omega (arith, small, (masked k x few used).0)

    -- All of them lie in the slot.
    within :
        (g : ℕ) → g < 2 ^ (get_or mx k 0 - e) → code / 2 ^ (k + 1) + g * 2 ^ e < 2 ^ get_or mx k 0
    within g lt =
        let width : e + (get_or mx k 0 - e) ≡ get_or mx k 0 = omega (arith, room) in
        rw width at (join-lt (code / 2 ^ (k + 1)) g e (get_or mx k 0 - e) s.high_lt lt)

    pub fill_symbol-hits :
        (bits sym : ℕ) (es : List DecodeEntry)
        → Matches bits len code
        → bits / 2 ^ (k + 1) % 2 ^ get_or mx k 0 + (slot_at k).offset < length es
        → get_or
            (fill_symbol all_slots mx sym len code es)
            (bits / 2 ^ (k + 1) % 2 ^ get_or mx k 0 + (slot_at k).offset)
            no_entry
          ≡ record { symbol = sym % 2 ^ 16; len = len }
    unfolding fill_symbol
    fill_symbol-hits bits sym es m inside =
        let width : ℕ = get_or mx k 0 in
        let x : ℕ = bits / 2 ^ (k + 1) % 2 ^ width in
        let (low, at_k, high) = Matches-parts bits len code k e s m in
        let rest : x % 2 ^ e ≡ code / 2 ^ (k + 1) =
          mod-mod_two-pow (bits / 2 ^ (k + 1)) e width room ∙ high in
        let g : ℕ = x / 2 ^ e in
        let lt : g < 2 ^ (width - e) =
          div_two-pow-lt x e width room (mod-lt (bits / 2 ^ (k + 1)) (two-pow-pos width)) in
        let is : x + (slot_at k).offset ≡ code / 2 ^ (k + 1) + (slot_at k).offset + g * 2 ^ e =
          omega (arith, rest, div-add-mod x (2 ^ e)) in
        rw (s.ctz_is, extra_is, base_is)
          (fill_from-hits (2 ^ (width - e)) 0 (code / 2 ^ (k + 1) + (slot_at k).offset) (2 ^ e) _ g
            _ es inside (omega arith) (omega (arith, lt)) is)

    -- A place that no entry of the symbol is at.
    fill_symbol-misses :
        (idx sym : ℕ) (es : List DecodeEntry)
        → ((g : ℕ)
            → g < 2 ^ (get_or mx k 0 - e)
            → idx ≢ code / 2 ^ (k + 1) + (slot_at k).offset + g * 2 ^ e)
        → get_or (fill_symbol all_slots mx sym len code es) idx no_entry ≡ get_or es idx no_entry
    unfolding fill_symbol
    fill_symbol-misses idx sym es out =
        let base : ℕ = code / 2 ^ (k + 1) + (slot_at k).offset in
        let n : ℕ = 2 ^ (get_or mx k 0 - e) in
        rw (s.ctz_is, extra_is, base_is)
          (elim (fill_from-misses n 0 base (2 ^ e) idx (record { symbol = sym % 2 ^ 16; len = len })
            es) [ inl kept ↦ kept | inr (g, lt, is) ↦ absurd (out g (omega (arith, lt)) is) ])

    -- The entry behind all slots is none of theirs.
    pub fill_symbol-total :
        (sym : ℕ) (es : List DecodeEntry)
        → let total = (build_slots 32 0 last mx 0).1 in
          get_or (fill_symbol all_slots mx sym len code es) total no_entry
          ≡ get_or es total no_entry
    fill_symbol-total sym es =
        let m : ℕ = get_or mx k 0 in
        let zero_k : 0 + k ≡ k = omega arith in
        let below = slot_within last mx 32 0 0 k few (omega (arith, used)) in
        let mask : (slot_at k).mask ≡ 2 ^ m - 1 =
          rw zero_k at (slot_mask last mx 32 0 0 k few (omega (arith, used))) in
        fill_symbol-misses _ sym es
          (λ g lt is. omega (arith, within g lt, below, mask, is, two-pow-pos m))

    same_slot :
        (bits g : ℕ)
        → bits % 2 ^ (k + 1) ≡ 2 ^ k
        → bits / 2 ^ (k + 1) % 2 ^ get_or mx k 0 + (slot_at k).offset
          ≡ code / 2 ^ (k + 1) + (slot_at k).offset + g * 2 ^ e
        → Matches bits len code
    same_slot bits g low is =
        let x : ℕ = bits / 2 ^ (k + 1) in
        let high : ℕ = code / 2 ^ (k + 1) in
        let split : x % 2 ^ get_or mx k 0 ≡ high + 2 ^ e * g = omega (arith, is) in
        let own : (high + 2 ^ e * g) % 2 ^ e ≡ high =
          add-mul-mod_self_left high (2 ^ e) g ∙ mod-eq_of_lt s.high_lt in
        let top : x % 2 ^ e ≡ high = rw (← mod-mod_two-pow x e (get_or mx k 0) room, split) own in
        parts-Matches bits len code k e s low top

    -- Nor is the entry that other bits select, unless they begin with the symbol's code.
    pub fill_symbol-other :
        (bits j sym : ℕ) (es : List DecodeEntry)
        → bits % 2 ^ (j + 1) ≡ 2 ^ j
        → j < 32
        → j ≤ last
        → ¬ Matches bits len code
        → get_or
            (fill_symbol all_slots mx sym len code es)
            (bits / 2 ^ (j + 1) % 2 ^ get_or mx j 0 + (slot_at j).offset)
            no_entry
          ≡ get_or es (bits / 2 ^ (j + 1) % 2 ^ get_or mx j 0 + (slot_at j).offset) no_entry
    fill_symbol-other bits j sym es low few_j used_j apart =
        let m : ℕ = get_or mx k 0 in
        let zero_k : 0 + k ≡ k = omega arith in
        let mask : (slot_at k).mask ≡ 2 ^ m - 1 =
          rw zero_k at (slot_mask last mx 32 0 0 k few (omega (arith, used))) in
        let x : ℕ = bits / 2 ^ (j + 1) in
        let in_j = (masked j x few_j used_j).1 in
        fill_symbol-misses _ sym es (λ g lt is. elim (le_cases k j) [
          | inr behind ↦
              omega
                (arith, slots_apart last mx 32 0 0 j k behind few (omega (arith, used_j)), in_j, is)
          | inl upto ↦ elim (eq_cases k j) [
            | inr before ↦ omega (
              arith,
              slots_apart last mx 32 0 0 k j (omega (arith, upto, before)) few_j
                  (omega (arith, used)),
              within g lt,
              mask,
              is,
              two-pow-pos m,
            )
            | inl here ↦
                let low' : bits % 2 ^ (k + 1) ≡ 2 ^ k = rw (← here) at low in
                apart (same_slot bits g low' (rw (← here) at is))
          ]
        ])
