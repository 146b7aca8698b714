-- ===== src/Huffman/Slots.antt =====
-- src/huffman.rs: the slots of a decode table.
use msdelta.Base.{
  ℕ, zero, suc, ◌+◌, ◌-◌, ◌^◌, max, ◌≤◌, ◌<◌, ◌≡◌, ◌⊎◌, inl, inr, refl, sym, arith, true, List, [],
  ◌∷◌, length, length-set, get_or, set, le→leb, lt→leb, lt→ltb, le→ltb, le_cases, Bool-cases,
}
use msdelta.Huffman.Table.{
  Slot, no_slot, is_skipped, ctz_of, extra_of, extras, last_slot, build_slots,
}
use msdelta.Huffman.Arrays.{get_or-set_self, AllPairs}

-- A raised entry lowers no entry.
le-raise : (xs : List ℕ) (i j v : ℕ) → get_or xs i 0 < v → get_or xs j 0 ≤ get_or (set xs i v) j 0
le-raise [] i j v h = omega arith
le-raise (x ∷ xs) zero zero v h = omega (arith, h)
le-raise (x ∷ xs) zero (suc j) v h = omega arith
le-raise (x ∷ xs) (suc i) zero v h = omega arith
le-raise (x ∷ xs) (suc i) (suc j) v h = le-raise xs i j v h

-- A step of `extras` lowers no entry.
extras_mono : (ls cs mx : List ℕ) (i : ℕ) → get_or mx i 0 ≤ get_or (extras ls cs mx) i 0
unfolding extras
extras_mono [] cs mx i = omega arith
extras_mono (len ∷ ls) [] mx i = omega arith
extras_mono (len ∷ ls) (code ∷ cs) mx i = elim (Bool-cases (is_skipped len code)) [
  | inl skipped ↦ rw skipped (extras_mono ls cs mx i)
  | inr kept ↦ elim (le_cases (extra_of len code) (get_or mx (ctz_of code) 0)) [
    | inl few ↦ rw (kept, le→ltb few) (extras_mono ls cs mx i)
    | inr more ↦
        let mx' : List ℕ = set mx (ctz_of code) (extra_of len code) in
        let up = le-raise mx (ctz_of code) i (extra_of len code) more in
        rw (kept, lt→ltb more) (omega (arith, up, extras_mono ls cs mx' i))
  ]
]

-- A symbol that the table finds by its zeros has a slot that is wide enough for it.
abbrev pub HasRoom : ℕ → List ℕ → ℕ → ℕ → Type 0
HasRoom last mx len code =
    (is_skipped len code ≡ true)
    ⊎ ((ctz_of code ≤ last) × (extra_of len code ≤ get_or mx (ctz_of code) 0))

-- A symbol whose zeros are below the width of a word.
abbrev pub IsNarrow : ℕ → ℕ → ℕ → Type 0
IsNarrow w len code = (is_skipped len code ≡ true) ⊎ (ctz_of code < w)

last_slot_mono : (ls cs : List ℕ) (m : ℕ) → m ≤ last_slot ls cs m
unfolding last_slot
last_slot_mono [] cs m = omega arith
last_slot_mono (len ∷ ls) [] m = omega arith
last_slot_mono (len ∷ ls) (code ∷ cs) m = elim (Bool-cases (is_skipped len code)) [
  | inl skipped ↦ rw skipped (last_slot_mono ls cs m)
  | inr kept ↦ rw kept (omega (arith, last_slot_mono ls cs (max m (ctz_of code))))
]

rooms :
    (ls cs mx : List ℕ) (m last : ℕ) (wide : List ℕ)
    → last_slot ls cs m ≡ last
    → extras ls cs mx ≡ wide
    → AllPairs (IsNarrow (length mx)) ls cs
    → AllPairs (HasRoom last wide) ls cs
unfolding last_slot extras
rooms [] cs mx m last wide el ew h = tt
rooms (len ∷ ls) [] mx m last wide el ew h = tt
rooms (len ∷ ls) (code ∷ cs) mx m last wide el ew h = elim h.0 [
  | inl skipped ↦
      (inl skipped, rooms ls cs mx m last wide (rw skipped at el) (rw skipped at ew) h.1)
  | inr narrow ↦ elim (Bool-cases (is_skipped len code)) [
    | inl skipped ↦
        (inl skipped, rooms ls cs mx m last wide (rw skipped at el) (rw skipped at ew) h.1)
    | inr kept ↦
        let k : ℕ = ctz_of code in
        let el' : last_slot ls cs (max m k) ≡ last = rw kept at el in
        let top = last_slot_mono ls cs (max m k) in
        elim (le_cases (extra_of len code) (get_or mx k 0)) [
          | inl few ↦
              let ew' : extras ls cs mx ≡ wide = rw (kept, le→ltb few) at ew in
              let room : get_or mx k 0 ≤ get_or wide k 0 = rw ew' at (extras_mono ls cs mx k) in
              (
                inr (omega (arith, top, el'), omega (arith, few, room)),
                rooms ls cs mx (max m k) last wide el' ew' h.1,
              )
          | inr more ↦
              let mx' : List ℕ = set mx k (extra_of len code) in
              let ew' : extras ls cs mx' ≡ wide = rw (kept, lt→ltb more) at ew in
              let room : get_or mx' k 0 ≤ get_or wide k 0 = rw ew' at (extras_mono ls cs mx' k) in
              let own = get_or-set_self mx k (extra_of len code) 0 narrow in
              let same : length mx' ≡ length mx = length-set mx k (extra_of len code) in
              (
                inr (omega (arith, top, el'), omega (arith, own, room)),
                rooms ls cs mx' (max m k) last wide el' ew' (rw same h.1),
              )
        ]
  ]
]

pub AllPairs-HasRoom :
    (ls cs mx : List ℕ) (m : ℕ)
    → AllPairs (IsNarrow (length mx)) ls cs
    → AllPairs (HasRoom (last_slot ls cs m) (extras ls cs mx)) ls cs
AllPairs-HasRoom ls cs mx m h = rooms ls cs mx m (last_slot ls cs m) (extras ls cs mx) refl refl h

-- A bound on the zeros of all symbols bounds the last slot.
pub last_slot-lt :
    (ls cs : List ℕ) (m w : ℕ) → m < w → AllPairs (IsNarrow w) ls cs → last_slot ls cs m < w
unfolding last_slot
last_slot-lt [] cs m w h k = h
last_slot-lt (len ∷ ls) [] m w h k = h
last_slot-lt (len ∷ ls) (code ∷ cs) m w h k = elim (Bool-cases (is_skipped len code)) [
  | inl skipped ↦ rw skipped (last_slot-lt ls cs m w h k.1)
  | inr kept ↦ elim k.0 [
    | inl skipped ↦ cc
    | inr narrow ↦
        rw kept (last_slot-lt ls cs (max m (ctz_of code)) w (omega (arith, h, narrow)) k.1)
  ]
]

module _ (last : ℕ) (mx : List ℕ) where
  -- The slot for `j` zeros, of the `n` that are made from the `i`th on.
  abbrev pub slot_of : ℕ → ℕ → ℕ → ℕ → Slot
  slot_of n i total j = get_or (build_slots n i last mx total).0 j no_slot

  total_mono : (n i total : ℕ) → total ≤ (build_slots n i last mx total).1
  unfolding build_slots
  total_mono zero i total = omega arith
  total_mono (suc n) i total = elim (le_cases i last) [
    | inl used ↦
        rw (le→leb used) (omega (arith, total_mono n (suc i) (total + (2 ^ get_or mx i 0 - 1) + 1)))
    | inr unused ↦ rw (lt→leb unused) (total_mono n (suc i) total)
  ]

  pub slot_mask :
      (n i total j : ℕ)
      → j < n
      → i + j ≤ last
      → (slot_of n i total j).mask ≡ 2 ^ get_or mx (i + j) 0 - 1
  unfolding build_slots
  slot_mask zero i total j h k = absurd (omega arith)
  slot_mask (suc n) i total zero h k =
      let e : i + 0 ≡ i = omega arith in
      let used : i ≤ last = omega (arith, k) in rw (le→leb used, e)
  slot_mask (suc n) i total (suc j) h k =
      let e : i + suc j ≡ suc i + j = omega arith in
      rw e (slot_mask n (suc i) _ j (omega arith) (omega (arith, k)))

  offset_from : (n i total j : ℕ) → j < n → total ≤ (slot_of n i total j).offset
  unfolding build_slots
  offset_from zero i total j h = absurd (omega arith)
  offset_from (suc n) i total zero h = omega arith
  offset_from (suc n) i total (suc j) h = elim (le_cases i last) [
    | inl used ↦
        rw (le→leb used) (
          omega
            (arith, offset_from n (suc i) (total + (2 ^ get_or mx i 0 - 1) + 1) j (omega arith)))
    | inr unused ↦ rw (lt→leb unused) (offset_from n (suc i) total j (omega arith))
  ]

  pub slot_within :
      (n i total j : ℕ)
      → j < n
      → i + j ≤ last
      → (slot_of n i total j).offset + (slot_of n i total j).mask
        < (build_slots n i last mx total).1
  unfolding build_slots
  slot_within zero i total j h k = absurd (omega arith)
  slot_within (suc n) i total zero h k =
      let used : i ≤ last = omega (arith, k) in
      rw (le→leb used) (omega (arith, total_mono n (suc i) (total + (2 ^ get_or mx i 0 - 1) + 1)))
  slot_within (suc n) i total (suc j) h k =
      slot_within n (suc i) _ j (omega arith) (omega (arith, k))

  pub slots_apart :
      (n i total j j' : ℕ)
      → j < j'
      → j' < n
      → i + j ≤ last
      → (slot_of n i total j).offset + (slot_of n i total j).mask < (slot_of n i total j').offset
  unfolding build_slots
  slots_apart zero i total j j' h k l = absurd (omega arith)
  slots_apart (suc n) i total zero zero h k l = absurd (omega arith)
  slots_apart (suc n) i total (suc j) zero h k l = absurd (omega arith)
  slots_apart (suc n) i total zero (suc j') h k l =
      let used : i ≤ last = omega (arith, l) in
      rw (le→leb used) (
        omega (arith, offset_from n (suc i) (total + (2 ^ get_or mx i 0 - 1) + 1) j' (omega arith)))
  slots_apart (suc n) i total (suc j) (suc j') h k l =
      slots_apart n (suc i) _ j j' (omega arith) (omega arith) (omega (arith, l))

  total_unused : (n i total : ℕ) → last < i → (build_slots n i last mx total).1 ≡ total
  unfolding build_slots
  total_unused zero i total h = refl
  total_unused (suc n) i total h = rw (lt→leb h) (total_unused n (suc i) total (omega (arith, h)))

  pub slot_unused :
      (n i total j : ℕ)
      → j < n
      → last < i + j
      → ((slot_of n i total j).mask ≡ 0)
        × ((slot_of n i total j).offset ≡ (build_slots n i last mx total).1)
  unfolding build_slots
  slot_unused zero i total j h k = absurd (omega arith)
  slot_unused (suc n) i total zero h k =
      let past : last < i = omega (arith, k) in
      rw (lt→leb past) (refl, sym (total_unused n (suc i) total (omega (arith, past))))
  slot_unused (suc n) i total (suc j) h k =
      slot_unused n (suc i) _ j (omega arith) (omega (arith, k))
