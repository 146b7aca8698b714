-- ===== src/Lzx/Rift.antt =====
-- src/lzx/rift.rs: the tables that map positions of the source to positions of the target. An i64
-- is held as the integer; its wrapping sums are taken modulo 2^64.
pub mod Numbers
pub mod Vector
pub mod Lookup
pub mod Offsets
pub mod Sum
pub mod Coder
pub mod Serial
use msdelta.Base.{
  ℕ, zero, suc, ◌+◌, ◌-◌, ◌*◌, ◌^◌, Bool, true, false, not, ◌&&◌, Option, none, some, List, [], ◌∷◌,
  ◌++◌, map, get_or, length, ltb, ◌==◌, if◌then◌else◌,
}
use msdelta.Base.Int.{ℤ, pos, negsuc, eq_ℤ, ltb_ℤ, ◌+ℤ◌, ◌-ℤ◌, as_i64, as_u64}
use msdelta.Base.Search.{Search, found, missing, binary_search}

pub record RiftEntry : Type 0 where
  pub source : ℤ
  pub target : ℤ

-- `i64::MAX`, the target that is not set and the break behind the last segment.
abbrev pub i64_max : ℤ
i64_max = pos (2 ^ 63 - 1)

-- `rift_entry_offset`
unfoldable pub rift_entry_offset : ℤ → ℤ → ℤ
rift_entry_offset source target = as_i64 (as_u64 (target -ℤ source))

-- A table is the list of its entries. The vector's sources count up from `from`.
unfoldable pub reset_from : ℕ → ℕ → List RiftEntry
reset_from from zero = []
reset_from from (suc n) = record { source = pos from; target = i64_max } ∷ reset_from (suc from) n

unfoldable pub reset_vector : ℕ → List RiftEntry
reset_vector entry_count = reset_from 0 entry_count

-- `get_mut(index)` and the write behind its check.
unfoldable pub set_at : ℕ → ℤ → ℤ → List RiftEntry → List RiftEntry
set_at index source target [] = []
set_at zero source target (e ∷ es) =
    (if eq_ℤ e.source source then record e { target = target } else e) ∷ es
set_at (suc index) source target (e ∷ es) = e ∷ set_at index source target es

unfoldable pub set_vector_entry : ℤ → ℤ → List RiftEntry → List RiftEntry
set_vector_entry (pos index) target entries = set_at index (pos index) target entries
set_vector_entry (negsuc n) target entries = entries

-- The inner loop of `internal_reduce`: the vote over the entries of one source.
unfoldable pub vote : ℤ → ℤ → ℕ → List RiftEntry → ℤ × List RiftEntry
vote source target count [] = (target, [])
vote source target count (e ∷ es) =
    if eq_ℤ e.source source
    then (if eq_ℤ e.target target
        then vote source target (count + 1) es
        else if count == 0
        then vote source e.target 1 es
        else vote source target (count - 1) es)
    else (target, e ∷ es)

-- `reduced.last().is_none_or(..)`, and the push behind it; `last_offset` is the last entry's.
unfoldable pub push_reduced : Option ℤ → RiftEntry → List RiftEntry → List RiftEntry
push_reduced none e rest = e ∷ rest
push_reduced (some o) e rest =
    if not (eq_ℤ o (rift_entry_offset e.source e.target)) then e ∷ rest else rest

-- The outer loop; each round takes an entry, so the count of entries is fuel enough.
unfoldable pub reduce_loop : ℕ → Bool → Option ℤ → List RiftEntry → List RiftEntry
reduce_loop zero drop_unset last es = []
reduce_loop (suc fuel) drop_unset last [] = []
reduce_loop (suc fuel) drop_unset last (e ∷ es) =
    let skipped = reduce_loop fuel drop_unset last es in
    let (target, rest) = vote e.source e.target 1 es in
    let offset = rift_entry_offset e.source target in
    let kept =
      push_reduced last (record { source = e.source; target = target })
        (reduce_loop fuel drop_unset (some offset) rest) in
    if drop_unset && eq_ℤ e.target i64_max then skipped else kept

unfoldable pub last_entry : RiftEntry → List RiftEntry → RiftEntry
last_entry e [] = e
last_entry e (f ∷ fs) = last_entry f fs

-- The end of `internal_reduce`.
unfoldable pub settle : List RiftEntry → List RiftEntry
settle [] = []
settle (e ∷ []) =
    if eq_ℤ e.source e.target
    then []
    else record { source = pos 0; target = rift_entry_offset e.source e.target } ∷ []
settle (e ∷ f ∷ fs) =
    let last = last_entry f fs in
    if eq_ℤ (rift_entry_offset e.source e.target) (rift_entry_offset last.source last.target)
    then f ∷ fs
    else e ∷ f ∷ fs

unfoldable pub internal_reduce : Bool → List RiftEntry → List RiftEntry
internal_reduce drop_unset entries = settle (reduce_loop (length entries) drop_unset none entries)

abbrev pub sources : List RiftEntry → List ℤ
sources es = map (λ e. e.source) es

-- `Ok(i) => i, Err(i) => i - 1`
unfoldable pub entry_place : Search → ℕ
entry_place (found i) = i
entry_place (missing i) = i - 1

-- The place before a source, in i64.
unfoldable pub before : ℤ → ℤ
before source = as_i64 (as_u64 (source -ℤ pos 1))

-- The offset at `p` and the last place that it covers; a place before all is in the last segment.
unfoldable pub get_rift : List RiftEntry → ℤ → ℤ × ℤ
get_rift [] p = (pos 0, i64_max)
get_rift (e ∷ es) p =
    let last = last_entry e es in
    let idx = entry_place (binary_search (sources (e ∷ es)) p) in
    let at = get_or (e ∷ es) idx e in
    let next = get_or (e ∷ es) (idx + 1) e in
    let next_break = if ltb (idx + 1) (length (e ∷ es)) then before next.source else i64_max in
    if ltb_ℤ p e.source
    then (rift_entry_offset last.source last.target, before e.source)
    else (rift_entry_offset at.source at.target, next_break)

-- The arms of the match in `map`.
unfoldable pub map_found : RiftEntry → List RiftEntry → Search → ℤ
map_found e es (found i) = let at = get_or (e ∷ es) i e in rift_entry_offset at.source at.target
map_found e es (missing zero) = pos 0
map_found e es (missing (suc i)) =
    let at = get_or (e ∷ es) i e in rift_entry_offset at.source at.target

unfoldable pub map_rift : List RiftEntry → ℤ → ℤ
map_rift [] p = pos 0
map_rift (e ∷ es) p = map_found e es (binary_search (sources (e ∷ es)) p)
