-- ===== src/Lzx/Rift/Offsets.antt =====
-- src/lzx/rift.rs: `OffsetRiftTable`, the lookups of the decompressor. A table has an entry at least.
use msdelta.Base.{ℕ, zero, suc, ◌+◌, ◌≡◌, refl, List, [], ◌∷◌, map, get_or, inl, inr}
use msdelta.Base.Int.{ℤ, pos}
use msdelta.Base.Search.{
  Search, found, missing, binary_search, IsAscending, IsLast, binary_search-IsLast,
}
use msdelta.Lzx.Rift.{RiftEntry, i64_max, rift_entry_offset, last_entry}

pub record OffsetEntry : Type 0 where
  pub position : ℤ
  pub offset : ℤ

-- The first entry and the others.
pub record OffsetRiftTable : Type 0 where
  pub first : OffsetEntry
  pub others : List OffsetEntry

unfoldable pub offset_entries : List RiftEntry → List OffsetEntry
offset_entries [] = []
offset_entries (e ∷ es) =
    record { position = e.source; offset = rift_entry_offset e.source e.target } ∷ offset_entries es

unfoldable pub from_rift_table : List RiftEntry → OffsetRiftTable
from_rift_table [] = record { first = record { position = pos 0; offset = pos 0 }; others = [] }
from_rift_table (e ∷ es) =
    let last = last_entry e es in
    record {
      first = record { position = pos 0; offset = rift_entry_offset last.source last.target };
      others = offset_entries (e ∷ es);
    }

abbrev pub entries_of : OffsetRiftTable → List OffsetEntry
entries_of table = table.first ∷ table.others

abbrev pub positions : OffsetRiftTable → List ℤ
positions table = map (λ e. e.position) (entries_of table)

-- `entries[i].1`
abbrev pub offset_of : OffsetRiftTable → ℕ → ℤ
offset_of table i = (get_or (entries_of table) i table.first).offset

-- The arms of the match in `offset_at`.
unfoldable pub offset_found : OffsetRiftTable → Search → ℤ
offset_found table (found i) = offset_of table i
offset_found table (missing zero) = offset_of table 0
offset_found table (missing (suc i)) = offset_of table i

unfoldable pub offset_at : OffsetRiftTable → ℤ → ℤ
offset_at table p = offset_found table (binary_search (positions table) p)

-- The arms of the match in `segment_at`.
unfoldable pub segment_place : Search → ℕ
segment_place (found i) = i
segment_place (missing zero) = 0
segment_place (missing (suc i)) = i

unfoldable pub segment_at : OffsetRiftTable → ℤ → ℤ × ℤ
segment_at table p =
    let idx = segment_place (binary_search (positions table) p) in
    (offset_of table idx, get_or (positions table) (idx + 1) i64_max)

-- In a table whose positions ascend, none twice, both lookups take the last entry whose position is not above
-- `p`, or the first entry when all positions are above; `segment_at` also gives the position of the
-- next entry, and i64::MAX when there is none.
pub segment_at-IsLast :
    (table : OffsetRiftTable) (p : ℤ)
    → IsAscending (positions table)
    → (i : ℕ) × IsLast (positions table) p i
      × (offset_at table p ≡ offset_of table i)
      × (segment_at table p ≡ (offset_of table i, get_or (positions table) (i + 1) i64_max))
unfolding segment_at offset_at segment_place offset_found
segment_at-IsLast table p h =
    let (i, last, result) =
      binary_search-IsLast table.first.position (map (λ e. e.position) table.others) p h in
    let both : (offset_at table p ≡ offset_of table i)
        × (segment_at table p ≡ (offset_of table i, get_or (positions table) (i + 1) i64_max)) =
      elim result [
        | inl e ↦ rw e (refl, refl)
        | inr (inl e) ↦ rw e (refl, refl)
        | inr (inr (first, e, _)) ↦ rw (e, first) (refl, refl)
      ] in
    (i, last, both.0, both.1)
