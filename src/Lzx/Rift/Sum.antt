-- ===== src/Lzx/Rift/Sum.antt =====
-- src/lzx/rift.rs: the sum of two tables.
use msdelta.Base.{List, [], ◌∷◌, ◌++◌, map, if◌then◌else◌}
use msdelta.Base.Int.{ℤ, eq_ℤ, ltb_ℤ, ◌+ℤ◌, as_i64, as_u64}
use msdelta.Lzx.Rift.{RiftEntry, rift_entry_offset, sources, get_rift}

-- `breaks.sort_unstable()`
unfoldable pub insert : ℤ → List ℤ → List ℤ
insert s [] = s ∷ []
insert s (b ∷ bs) = if ltb_ℤ b s then b ∷ insert s bs else s ∷ b ∷ bs

unfoldable pub sort : List ℤ → List ℤ
sort [] = []
sort (b ∷ bs) = insert b (sort bs)

-- `breaks.dedup()`
unfoldable pub dedup_from : ℤ → List ℤ → List ℤ
dedup_from last [] = []
dedup_from last (b ∷ bs) = if eq_ℤ b last then dedup_from last bs else b ∷ dedup_from b bs

unfoldable pub dedup : List ℤ → List ℤ
dedup [] = []
dedup (b ∷ bs) = b ∷ dedup_from b bs

-- The entries that `dedup_offsets` keeps; `prev` is the last of them.
unfoldable pub keep_from : RiftEntry → List RiftEntry → List RiftEntry
keep_from prev [] = prev ∷ []
keep_from prev (e ∷ es) =
    if eq_ℤ prev.source e.source
    then keep_from e es
    else if eq_ℤ (rift_entry_offset prev.source prev.target) (rift_entry_offset e.source e.target)
    then keep_from prev es
    else prev ∷ keep_from e es

unfoldable pub dedup_offsets : List RiftEntry → List RiftEntry
dedup_offsets [] = []
dedup_offsets (e ∷ es) = keep_from e es

-- `sort` by the source, stable.
unfoldable pub insert_entry : RiftEntry → List RiftEntry → List RiftEntry
insert_entry e [] = e ∷ []
insert_entry e (f ∷ fs) = if ltb_ℤ f.source e.source then f ∷ insert_entry e fs else e ∷ f ∷ fs

unfoldable pub sort_entries : List RiftEntry → List RiftEntry
sort_entries [] = []
sort_entries (e ∷ es) = insert_entry e (sort_entries es)

unfoldable pub sum_at : List RiftEntry → List RiftEntry → ℤ → RiftEntry
sum_at a b s =
    let first = as_i64 (as_u64 (s +ℤ (get_rift a s).0)) in
    record { source = s; target = as_i64 (as_u64 (first +ℤ (get_rift b s).0)) }

unfoldable pub sum : List RiftEntry → List RiftEntry → List RiftEntry
sum [] b = b
sum (e ∷ es) [] = e ∷ es
sum (e ∷ es) (f ∷ fs) =
    let breaks = dedup (sort (sources (e ∷ es) ++ sources (f ∷ fs))) in
    dedup_offsets (sort_entries (map (sum_at (e ∷ es) (f ∷ fs)) breaks))

-- The entries that `dedup_same_source` keeps: of neighbours with one source the last.
unfoldable pub keep_last : RiftEntry → List RiftEntry → List RiftEntry
keep_last prev [] = prev ∷ []
keep_last prev (e ∷ es) =
    if eq_ℤ prev.source e.source then keep_last e es else prev ∷ keep_last e es

unfoldable pub dedup_same_source : List RiftEntry → List RiftEntry
dedup_same_source [] = []
dedup_same_source (e ∷ es) = keep_last e es
