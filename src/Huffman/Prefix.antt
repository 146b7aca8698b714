-- ===== src/Huffman/Prefix.antt =====
-- src/huffman.rs: the entry that a code selects in a decode table.
use msdelta.Base.{
  ℕ, zero, suc, ◌%◌, ◌^◌, min, ◌≤◌, ◌<◌, ◌≡◌, ◌≢◌, ◌⊎◌, inl, inr, refl, sym, ap, ◌∙◌, arith, true,
  List, [], ◌∷◌, length, get_or, replicate, eq→==, ne→==, eq_cases,
}
use msdelta.Base.Bits.{mod-mod_two-pow}
use msdelta.Huffman.Table.{is_skipped, extras, last_slot}
use msdelta.Huffman.Arrays.{AllPairs, AllPairs-mono, AllPairs-both}
use msdelta.Huffman.Shape.{HasShape, code-HasShape, Matches}
use msdelta.Huffman.Slots.{HasRoom, IsNarrow, AllPairs-HasRoom}
use msdelta.Huffman.Filled.{IsReady}

-- A code of at most 16 bits.
abbrev pub IsCode : ℕ → ℕ → Type 0
IsCode len code = (len ≤ 16) × (code < 2 ^ len)

-- Two codes of which neither is the beginning of the other; a symbol of length 0 has none.
abbrev pub Apart : ℕ → ℕ → ℕ → ℕ → Type 0
Apart l c l' c' = (l ≡ 0) ⊎ ((l' ≡ 0) ⊎ (c % 2 ^ min l l' ≢ c' % 2 ^ min l l'))

abbrev pub IsPrefixFree : List ℕ → List ℕ → Type 0
IsPrefixFree [] cs = Unit {0}
IsPrefixFree (l ∷ ls) [] = Unit {0}
IsPrefixFree (l ∷ ls) (c ∷ cs) = AllPairs (Apart l c) ls cs × IsPrefixFree ls cs

pub AllPairs_at :
    (P : ℕ → ℕ → Type 0) (ls cs : List ℕ) (p : ℕ)
    → p < length ls
    → p < length cs
    → AllPairs P ls cs
    → P (get_or ls p 0) (get_or cs p 0)
AllPairs_at P [] cs p h k a = absurd (omega arith)
AllPairs_at P (l ∷ ls) [] p h k a = absurd (omega arith)
AllPairs_at P (l ∷ ls) (c ∷ cs) zero h k a = a.0
AllPairs_at P (l ∷ ls) (c ∷ cs) (suc p) h k a =
    AllPairs_at P ls cs p (omega arith) (omega arith) a.1

pub Apart-comm : (l c l' c' : ℕ) → Apart l c l' c' → Apart l' c' l c
Apart-comm l c l' c' (inl z) = inr (inl z)
Apart-comm l c l' c' (inr (inl z)) = inl z
Apart-comm l c l' c' (inr (inr h)) =
    let e : min l' l ≡ min l l' = omega arith in rw e (inr (inr (λ same. h (sym same))))

-- A symbol's code is apart from all others.
pub Apart-all :
    (ls cs : List ℕ) (p : ℕ)
    → p < length ls
    → p < length cs
    → IsPrefixFree ls cs
    → AllPairs (λ l c. (c ≡ get_or cs p 0) ⊎ Apart (get_or ls p 0) (get_or cs p 0) l c) ls cs
Apart-all [] cs p h k free = tt
Apart-all (l ∷ ls) [] p h k free = tt
Apart-all (l ∷ ls) (c ∷ cs) zero h k free =
    (inl refl, AllPairs-mono (Apart l c) _ ls cs (λ a b x. inr x) free.0)
Apart-all (l ∷ ls) (c ∷ cs) (suc p) h k free = (
  inr (Apart-comm l c _ _ (AllPairs_at (Apart l c) ls cs p (omega arith) (omega arith) free.0)),
  Apart-all ls cs p (omega arith) (omega arith) free.1,
)

-- Bits begin with one code at most.
pub Apart-Matches :
    (bits l c l' c' : ℕ)
    → 0 < l
    → 0 < l'
    → Apart l c l' c'
    → Matches bits l c
    → ¬ Matches bits l' c'
Apart-Matches bits l c l' c' h k (inl z) m m' = absurd (omega arith)
Apart-Matches bits l c l' c' h k (inr (inl z)) m m' = absurd (omega arith)
Apart-Matches bits l c l' c' h k (inr (inr a)) m m' =
    let w : ℕ = min l l' in
    let one : c % 2 ^ w ≡ bits % 2 ^ w = rw m at (mod-mod_two-pow bits w l (omega arith)) in
    let two : c' % 2 ^ w ≡ bits % 2 ^ w = rw m' at (mod-mod_two-pow bits w l' (omega arith)) in
    a (one ∙ sym two)

pub skipped_or :
    (len code : ℕ)
    → IsCode len code
    → (is_skipped len code ≡ true) ⊎ ((0 < len) × HasShape len code)
skipped_or len code h = elim (eq_cases len 0) [
  | inl none_ ↦ inl (rw (eq→== none_))
  | inr used ↦ elim (eq_cases code 0) [
    | inl z ↦ inl (rw (ne→== used, eq→== z))
    | inr some_ ↦ inr (omega (arith, used), code-HasShape len code h.0 h.1 some_)
  ]
]

pub IsReady-all :
    (ls cs : List ℕ)
    → AllPairs IsCode ls cs
    → AllPairs (IsReady (last_slot ls cs 0) (extras ls cs (replicate 32 0))) ls cs
IsReady-all ls cs h =
    let last : ℕ = last_slot ls cs 0 in
    let mx : List ℕ = extras ls cs (replicate 32 0) in
    let narrow =
      AllPairs-mono IsCode (IsNarrow 32) ls cs
        (λ l c x. elim (skipped_or l c x) [
          | inl z ↦ inl z
          | inr (pos, (k, e, s)) ↦ inr (omega (arith, s.ctz_is, s.len_is, s.short))
        ])
        h in
    AllPairs-mono (λ l c. IsCode l c × HasRoom last mx l c) (IsReady last mx) ls cs
      (λ l c x. elim (skipped_or l c x.0) [
        | inl z ↦ inl z
        | inr (pos, (k, e, s)) ↦ elim x.1 [
          | inl z ↦ inl z
          | inr (low, room) ↦
              let room' : e ≤ get_or mx k 0 =
                omega (arith, room, s.extra_is, ap (λ (t : ℕ). get_or mx t 0) s.ctz_is) in
              inr (k, e, s, omega (arith, low, s.ctz_is), room')
        ]
      ])
      (AllPairs-both IsCode (HasRoom last mx) ls cs h
        (AllPairs-HasRoom ls cs (replicate 32 0) 0 narrow))
