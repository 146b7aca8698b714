-- ===== src/Bsdiff/Difference.antt =====
-- The bytes of a difference.
use msdelta.Base.{
  ℕ, zero, suc, ◌+◌, ◌-◌, ◌%◌, ◌<◌, ◌≡◌, inl, inr, refl, ap, arith, not, ◌&&◌, List, [], ◌∷◌,
  length, get_or, ltb, Bool-cases,
}
use msdelta.Base.Int.{ℤ, pos, ltb_ℤ, as_u64, ◌+ℤ◌}
use msdelta.Base.Bytes.{AreBytes}
use msdelta.Bsdiff.Patch.{wrap64, source_byte, add_bytes}
use msdelta.Bsdiff.Blocks.{sub_bytes}

get_or-IsByte : (xs : List ℕ) (i : ℕ) → AreBytes xs → get_or xs i 0 < 256
get_or-IsByte [] i h = omega arith
get_or-IsByte (x ∷ xs) zero h = h.0
get_or-IsByte (x ∷ xs) (suc i) h = get_or-IsByte xs i h.1

source_byte-IsByte : (source : List ℕ) (idx : ℤ) → AreBytes source → source_byte source idx < 256
unfolding source_byte
source_byte-IsByte source idx h =
    elim (Bool-cases (not (ltb_ℤ idx (pos 0)) && ltb (as_u64 idx) (length source))) [
      | inl inside ↦ rw inside (get_or-IsByte source (as_u64 idx) h)
      | inr outside ↦ rw outside (omega arith)
    ]

-- Adding the source's bytes undoes their subtraction.
pub add_bytes-sub_bytes :
    (source : List ℕ) (p : ℤ) (i : ℕ) (ts : List ℕ)
    → AreBytes source
    → AreBytes ts
    → add_bytes source p i (sub_bytes source p i ts) ≡ ts
unfolding add_bytes sub_bytes
add_bytes-sub_bytes source p i [] hs h = refl
add_bytes-sub_bytes source p i (t ∷ ts) hs h =
    let b : ℕ = source_byte source (wrap64 (p +ℤ pos i)) in
    let same : ((t + 256 - b) % 256 + b) % 256 ≡ t =
      omega (arith, h.0, source_byte-IsByte source (wrap64 (p +ℤ pos i)) hs) in
    rw (same, add_bytes-sub_bytes source p (suc i) ts hs h.1)

pub length-sub_bytes :
    (source : List ℕ) (p : ℤ) (i : ℕ) (ts : List ℕ) → length (sub_bytes source p i ts) ≡ length ts
unfolding sub_bytes
length-sub_bytes source p i [] = refl
length-sub_bytes source p i (t ∷ ts) = ap suc (length-sub_bytes source p (suc i) ts)

pub length-add_bytes :
    (source : List ℕ) (p : ℤ) (i : ℕ) (ds : List ℕ) → length (add_bytes source p i ds) ≡ length ds
unfolding add_bytes
length-add_bytes source p i [] = refl
length-add_bytes source p i (d ∷ ds) = ap suc (length-add_bytes source p (suc i) ds)
