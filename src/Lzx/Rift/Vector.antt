-- ===== src/Lzx/Rift/Vector.antt =====
-- Vector maps: what `set_vector_entry` changes.
use msdelta.Base.{
  ℕ, zero, suc, ◌+◌, ◌<◌, ◌≡◌, ◌≢◌, refl, ap, ◌∙◌, arith, true, List, [], ◌∷◌, length,
}
use msdelta.Base.Int.{ℤ, pos, eq_ℤ, eq_ℤ_refl}
use msdelta.Lzx.Rift.{RiftEntry, i64_max, reset_from, set_at, set_vector_entry}

-- The target of the `i`-th entry, and the count of entries behind it.
unfoldable pub target_at : ℕ → List RiftEntry → ℤ
target_at i [] = i64_max
target_at zero (e ∷ es) = e.target
target_at (suc i) (e ∷ es) = target_at i es

-- A vector map: the sources count up from `from`.
unfoldable pub IsVector : ℕ → List RiftEntry → Type 0
IsVector from [] = Unit
IsVector from (e ∷ es) = (e.source ≡ pos from) × IsVector (suc from) es

pub reset_from-IsVector : (from n : ℕ) → IsVector from (reset_from from n)
unfolding IsVector reset_from
reset_from-IsVector from zero = tt
reset_from-IsVector from (suc n) = (refl, reset_from-IsVector (suc from) n)

set_at-same :
    (from i : ℕ) (t : ℤ) (es : List RiftEntry)
    → IsVector from es
    → i < length es
    → IsVector from (set_at i (pos (from + i)) t es)
      × (target_at i (set_at i (pos (from + i)) t es) ≡ t)
unfolding IsVector set_at target_at
set_at-same from i t [] v h = absurd (omega arith)
set_at-same from zero t (e ∷ es) v h =
    let here : e.source ≡ pos (from + 0) = v.0 ∙ ap (λ (k : ℕ). pos k) (omega arith) in
    let same : eq_ℤ e.source (pos (from + 0)) ≡ true = rw here (eq_ℤ_refl (pos (from + 0))) in
    rw same ((v.0, v.1), refl)
set_at-same from (suc i) t (e ∷ es) v h =
    let next : suc from + i ≡ from + suc i = omega arith in
    let (v', e') = set_at-same (suc from) i t es v.1 (omega arith) in
    ((v.0, rw next at v'), rw next at e')

set_at-other :
    (i j : ℕ) (s t : ℤ) (es : List RiftEntry)
    → i ≢ j
    → target_at j (set_at i s t es) ≡ target_at j es
unfolding set_at target_at
set_at-other i j s t [] d = refl
set_at-other zero zero s t (e ∷ es) d = absurd (d refl)
set_at-other zero (suc j) s t (e ∷ es) d = refl
set_at-other (suc i) zero s t (e ∷ es) d = refl
set_at-other (suc i) (suc j) s t (e ∷ es) d = set_at-other i j s t es (λ same. d (ap suc same))

-- In a vector map of which the source `i` is an entry, setting it gives a vector map again with the
-- target there, and leaves every other target.
pub set_vector_entry-target_at :
    (i j : ℕ) (t : ℤ) (es : List RiftEntry)
    → IsVector 0 es
    → i < length es
    → IsVector 0 (set_vector_entry (pos i) t es)
      × (target_at i (set_vector_entry (pos i) t es) ≡ t)
      × (i ≢ j → target_at j (set_vector_entry (pos i) t es) ≡ target_at j es)
unfolding set_vector_entry
set_vector_entry-target_at i j t es v h =
    let zero_ : 0 + i ≡ i = omega arith in
    let (v', e) = set_at-same 0 i t es v h in
    (rw zero_ at v', rw zero_ at e, set_at-other i j (pos i) t es)
