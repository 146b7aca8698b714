-- ===== src/Dcm/Wrapping.antt =====
-- `strip` undoes `wrap` and takes nothing else.
use msdelta.Base.{
  ℕ, ◌≡◌, ◌↔◌, ◌⊎◌, inl, inr, sym, ◌∙◌, arith, true, false, List, ◌++◌, length, take, drop,
  take-append-drop, le_cases, Bool-cases, lt→ltb, le→ltb, le→leb, lt→leb,
}
use msdelta.Base.Bytes.{eq_bytes, eq_bytes→≡}
use msdelta.Errors.{truncated, bad_magic}
use msdelta.Errors.{Error, ok, err}
use msdelta.Dcm.{magic, is_dcm, strip, wrap}

-- What `strip` does in each of its branches.
strip_cases :
    (buf : List ℕ)
    → ((p : List ℕ) × (buf ≡ wrap p) × (strip buf ≡ ok p))
      ⊎ ((e : Error) × (strip buf ≡ err e) × (is_dcm buf ≡ false))
unfolding strip wrap is_dcm
strip_cases buf = elim (le_cases 4 (length buf)) [
  | inr short ↦ inr (
    truncated,
    rw (lt→ltb {a = length buf} {b = 4} short),
    rw (lt→leb {a = 4} {b = length buf} short),
  )
  | inl long ↦ elim (Bool-cases (eq_bytes (take 4 buf) magic)) [
    | inl same ↦
        let whole : buf ≡ magic ++ drop 4 buf =
          rw (eq_bytes→≡ _ _ same) at (sym (take-append-drop 4 buf)) in
        inl (drop 4 buf, whole, rw (le→ltb {a = length buf} {b = 4} long, same))
    | inr other ↦ inr (
      bad_magic magic (take 4 buf),
      rw (le→ltb {a = length buf} {b = 4} long, other),
      rw (le→leb {a = 4} {b = length buf} long, other),
    )
  ]
]

-- A wrapped payload is stripped to itself.
strip-wrap : (p : List ℕ) → strip (wrap p) ≡ ok p
unfolding strip wrap eq_bytes
strip-wrap p = rw (le→ltb {a = length (magic ++ p)} {b = 4} (omega arith))

-- A buffer is stripped to `p` exactly if it is the wrapped `p`.
pub strip-wrap_iff : (buf p : List ℕ) → (strip buf ≡ ok p) ↔ (buf ≡ wrap p)
strip-wrap_iff buf p = (
  λ e. elim (strip_cases buf) [
    | inl (q, whole, e') ↦ let same : q ≡ p = cc in rw (← same) whole
    | inr (x, e', _) ↦ absurd_of (sym e' ∙ e)
  ],
  λ e. rw e (strip-wrap p),
)
  where
    absurd_of : {x : Error} → err x ≡ ok p → buf ≡ wrap p
    absurd_of h = cc

-- A wrapped payload is one.
is_dcm-wrap : (p : List ℕ) → is_dcm (wrap p) ≡ true
unfolding is_dcm wrap eq_bytes
is_dcm-wrap p = rw (le→leb {a = 4} {b = length (magic ++ p)} (omega arith))

-- `is_dcm` holds exactly if the buffer is some wrapped payload.
pub is_dcm_iff : (buf : List ℕ) → (is_dcm buf ≡ true) ↔ ((p : List ℕ) × (buf ≡ wrap p))
is_dcm_iff buf = (
  λ e. elim (strip_cases buf) [
    | inl (q, whole, _) ↦ (q, whole)
    | inr (_, _, fails) ↦ let d : false ≡ true = sym fails ∙ e in cc
  ],
  λ (p, e). rw e (is_dcm-wrap p),
)
