-- ===== src/Lzx/Queue.antt =====
-- src/lzx/ops.rs: the three distances used last, and what an offset resolves to.
use msdelta.Base.{
  Bool, true, ℕ, zero, suc, ◌≡◌, inl, inr, ap, not, List, [], ◌∷◌, take, if◌then◌else◌, Bool-cases,
}
use msdelta.Base.Int.{ℤ, pos, eq_ℤ, eq_ℤ→≡}
use msdelta.Lzx.Ops.{CopyOffset, source_copy, lru, distance}

pub record LruQueue : Type 0 where
  pub entry0 : ℤ
  pub entry1 : ℤ
  pub entry2 : ℤ

unfoldable pub new : LruQueue
new = record { entry0 = pos 0; entry1 = pos 0; entry2 = pos 0 }

-- `entries[idx]`; an index is below 3.
unfoldable pub entry : LruQueue → ℕ → ℤ
entry q zero = q.entry0
entry q (suc zero) = q.entry1
entry q (suc (suc idx)) = q.entry2

unfoldable pub resolve : CopyOffset → LruQueue → ℕ → ℤ
resolve source_copy q ref_len = pos ref_len
resolve (lru idx) q ref_len = entry q idx
resolve (distance d) q ref_len = d

-- Every offset goes into the queue.
unfoldable pub updates_lru : CopyOffset → Bool
updates_lru o = true

unfoldable pub update : LruQueue → ℤ → LruQueue
update q dist =
    if not (eq_ℤ q.entry0 dist)
    then record {
      entry0 = dist;
      entry1 = q.entry0;
      entry2 = if not (eq_ℤ q.entry1 dist) then q.entry1 else q.entry2;
    }
    else q

-- The queue as a list, the last used first.
abbrev pub entries : LruQueue → List ℤ
entries q = q.entry0 ∷ q.entry1 ∷ q.entry2 ∷ []

-- A list without the first occurrence of a distance.
unfoldable pub without : ℤ → List ℤ → List ℤ
without d [] = []
without d (x ∷ xs) = if eq_ℤ x d then xs else x ∷ without d xs

-- `update` moves a distance to the front: the distance comes first, behind it the two first of the
-- others, in their order.
pub update-front :
    (q : LruQueue) (d : ℤ) → entries (update q d) ≡ d ∷ take 2 (without d (entries q))
unfolding update without
update-front q d = elim (Bool-cases (eq_ℤ q.entry0 d)) [
  | inl same ↦ rw same (ap (λ t. t ∷ q.entry1 ∷ q.entry2 ∷ []) (eq_ℤ→≡ q.entry0 d same))
  | inr other ↦ elim (Bool-cases (eq_ℤ q.entry1 d)) [
    | inl second ↦ rw (other, second)
    | inr third ↦ rw (other, third)
  ]
]
