-- ===== src/Bsdiff/Patch.antt =====
-- src/bsdiff/mod.rs: `bspatch`. The part of `target` before `new_pos` is held as the list
-- `built`; the part behind it is not looked at before it is written.
use msdelta.Base.{
  ℕ, zero, suc, ◌+◌, ◌*◌, ◌/◌, ◌%◌, ◌&&◌, ◌||◌, not, List, [], ◌∷◌, ◌++◌, length, take, drop,
  get_or, ltb, if◌then◌else◌,
}
use msdelta.Base.Int.{ℤ, pos, as_u64, as_i64, ltb_ℤ, ◌+ℤ◌}
use msdelta.Errors.{truncated, malformed}
use msdelta.Errors.{Result, ok, err, ◌>>=◌}
use msdelta.Bsdiff.Control.{read_i64}

-- A sum in i64.
unfoldable pub wrap64 : ℤ → ℤ
wrap64 v = as_i64 (as_u64 v)

-- The source's byte at a place that may lie outside of it.
unfoldable pub source_byte : List ℕ → ℤ → ℕ
source_byte source idx =
    if not (ltb_ℤ idx (pos 0)) && ltb (as_u64 idx) (length source)
    then get_or source (as_u64 idx) 0
    else 0

-- The bytes of the difference from the `i`-th on, added to the source's.
unfoldable pub add_bytes : List ℕ → ℤ → ℕ → List ℕ → List ℕ
add_bytes source old_pos i [] = []
add_bytes source old_pos i (d ∷ ds) =
    (d + source_byte source (wrap64 (old_pos +ℤ pos i))) % 256 ∷ add_bytes source old_pos (suc i) ds

pub record State : Type 0 where
  pub built : List ℕ
  pub patch_pos : ℕ
  pub old_pos : ℤ

-- The three control values of a block.
unfoldable pub read_control : List ℕ → ℕ → Result (ℕ × ℕ × ℤ)
read_control patch patch_pos = if ltb (length patch) (patch_pos + 24) then err truncated else (do
  add_len ← read_i64 (drop patch_pos patch)
  insert_len ← read_i64 (drop (patch_pos + 8) patch)
  seek_dist ← read_i64 (drop (patch_pos + 16) patch)
  ok (as_u64 add_len, as_u64 insert_len, seek_dist))

-- The copy of the literal bytes.
unfoldable pub insert_block : List ℕ → ℕ → ℕ → ℤ → State → Result State
insert_block patch target_size insert_len old_pos st =
    if ltb target_size (length st.built + insert_len)
    then err (malformed "insert_len exceeds target size")
    else if ltb (length patch) (st.patch_pos + insert_len)
    then err truncated
    else ok (record {
      built = st.built ++ take insert_len (drop st.patch_pos patch);
      patch_pos = st.patch_pos + insert_len;
      old_pos = old_pos;
    })

-- The loop's body behind the control values.
unfoldable pub apply_block : List ℕ → List ℕ → ℕ → ℕ × ℕ × ℤ → State → Result State
apply_block source patch target_size (add_len, insert_len, seek_dist) st =
    let patch_pos = st.patch_pos + 24 in
    let diff = take add_len (drop patch_pos patch) in
    let added = st.built ++ add_bytes source st.old_pos 0 diff in
    if ltb 0x7FFF_FFFF add_len || ltb 0x7FFF_FFFF insert_len
    then err (malformed "control value too large")
    else if ltb target_size (length st.built + add_len)
    then err (malformed "add_len exceeds target size")
    else if ltb (length patch) (patch_pos + add_len)
    then err truncated
    else insert_block patch target_size insert_len
        (wrap64 (st.old_pos +ℤ (seek_dist +ℤ pos add_len)))
        (record st { built = added; patch_pos = patch_pos + add_len })

-- The loop. Each round takes 24 bytes of the patch at least, so that many rounds are enough.
unfoldable pub blocks : ℕ → List ℕ → List ℕ → ℕ → State → Result State
blocks zero source patch target_size st = err truncated
blocks (suc fuel) source patch target_size st =
    let rest = (do
      control ← read_control patch st.patch_pos
      st' ← apply_block source patch target_size control st
      blocks fuel source patch target_size st') in
    if ltb (length st.built) target_size then rest else ok st

unfoldable pub bspatch : List ℕ → ℕ → List ℕ → Result (List ℕ)
bspatch source target_size patch =
    let start : State = record { built = []; patch_pos = 0; old_pos = pos 0 } in
    if ltb (64 * 1024 * 1024) target_size
    then err (malformed "bspatch: target size exceeds 256 MB limit")
    else (do st ← blocks (length patch / 24 + 1) source patch target_size start; ok st.built)
