-- ===== src/Bsdiff/Applied.antt =====
-- One block of a patch, read and applied.
use msdelta.Base.{
  ℕ, ◌+◌, ◌^◌, ◌≤◌, ◌<◌, ◌≡◌, refl, ap, ◌∙◌, arith, List, ◌++◌, length, take, drop, append_assoc,
  length-append, drop-append_left, take-append_left, le→ltb,
}
use msdelta.Base.Int.{ℤ, pos, as_u64, as_u64-pos, ◌+ℤ◌}
use msdelta.Errors.{ok}
use msdelta.Bsdiff.Control.{read_i64, write_i64, HasMagnitude, read_i64-write_i64, length-write_i64}
use msdelta.Bsdiff.Patch.{wrap64, add_bytes, read_control, insert_block, apply_block}
use msdelta.Bsdiff.Difference.{length-add_bytes}

-- What stands behind a part of a patch.
drop_past :
    (n : ℕ) (pre xs ys : List ℕ) → n ≡ length pre + length xs → drop n (pre ++ (xs ++ ys)) ≡ ys
drop_past n pre xs ys e =
    rw (← append_assoc) (drop-append_left n (pre ++ xs) ys (omega (arith, e, length-append pre xs)))

-- Three values of eight bytes at the front of a block.
control_at :
    (pre wa wb wc rest : List ℕ) (a b c : ℤ)
    → length wa ≡ 8
    → length wb ≡ 8
    → length wc ≡ 8
    → read_i64 (wa ++ (wb ++ (wc ++ rest))) ≡ ok a
    → read_i64 (wb ++ (wc ++ rest)) ≡ ok b
    → read_i64 (wc ++ rest) ≡ ok c
    → read_control (pre ++ (wa ++ (wb ++ (wc ++ rest)))) (length pre) ≡ ok (as_u64 a, as_u64 b, c)
unfolding read_control
control_at pre wa wb wc rest a b c la lb lc ea eb ec =
    let patch : List ℕ = pre ++ (wa ++ (wb ++ (wc ++ rest))) in
    let long : length pre + 24 ≤ length patch = omega (
      arith,
      length-append pre (wa ++ (wb ++ (wc ++ rest))),
      length-append wa (wb ++ (wc ++ rest)),
      length-append wb (wc ++ rest),
      length-append wc rest,
    ) in
    let d0 : drop (length pre) patch ≡ wa ++ (wb ++ (wc ++ rest)) =
      drop-append_left (length pre) pre _ refl in
    let d8 : drop (length pre + 8) patch ≡ wb ++ (wc ++ rest) =
      drop_past (length pre + 8) pre wa _ (omega (arith, la)) in
    let d16 : drop (length pre + 16) patch ≡ wc ++ rest = rw (← append_assoc wa wb (wc ++ rest)) (
      drop_past (length pre + 16) pre (wa ++ wb) (wc ++ rest)
        (omega (arith, la, lb, length-append wa wb))) in
    rw (le→ltb long, d0, d8, d16, ea, eb, ec)

pub control_read :
    (a b : ℕ) (c : ℤ) (pre rest : List ℕ)
    → a < 2 ^ 31
    → b < 2 ^ 31
    → HasMagnitude c
    → read_control
        (pre ++ (write_i64 (pos a) ++ (write_i64 (pos b) ++ (write_i64 c ++ rest))))
        (length pre)
      ≡ ok (a, b, c)
control_read a b c pre rest ha hb hc =
    let e =
      control_at pre (write_i64 (pos a)) (write_i64 (pos b)) (write_i64 c) rest (pos a) (pos b) c
        (length-write_i64 (pos a)) (length-write_i64 (pos b)) (length-write_i64 c)
        (read_i64-write_i64 (pos a) _ (omega arith)) (read_i64-write_i64 (pos b) _ (omega arith))
        (read_i64-write_i64 c rest hc) in
    e
    ∙ ap (λ (t : ℕ × ℕ × ℤ). ok t)
        (λ i. (as_u64-pos a (omega arith) i, as_u64-pos b (omega arith) i, c))

-- A block whose parts stand where the control values say.
pub block_applied :
    (source pre ctl diff lit rest built : List ℕ) (size : ℕ) (seek p : ℤ)
    → length ctl ≡ 24
    → length built + length diff + length lit ≤ size
    → size < 2 ^ 31
    → apply_block source
        (pre ++ (ctl ++ (diff ++ (lit ++ rest))))
        size
        (length diff, length lit, seek)
        (record { built = built; patch_pos = length pre; old_pos = p })
      ≡ ok (record {
        built = (built ++ add_bytes source p 0 diff) ++ lit;
        patch_pos = length pre + 24 + length diff + length lit;
        old_pos = wrap64 (p +ℤ (seek +ℤ pos (length diff)));
      })
unfolding apply_block insert_block
block_applied source pre ctl diff lit rest built size seek p lc room small =
    let patch : List ℕ = pre ++ (ctl ++ (diff ++ (lit ++ rest))) in
    let long : length pre + 24 + length diff + length lit ≤ length patch = omega (
      arith,
      length-append pre (ctl ++ (diff ++ (lit ++ rest))),
      length-append ctl (diff ++ (lit ++ rest)),
      length-append diff (lit ++ rest),
      length-append lit rest,
    ) in
    let d1 : drop (length pre + 24) patch ≡ diff ++ (lit ++ rest) =
      drop_past (length pre + 24) pre ctl _ (omega (arith, lc)) in
    let t1 : take (length diff) (diff ++ (lit ++ rest)) ≡ diff =
      take-append_left (length diff) diff _ refl in
    let d2 : drop (length pre + 24 + length diff) patch ≡ lit ++ rest =
      rw (← append_assoc ctl diff (lit ++ rest)) (
        drop_past (length pre + 24 + length diff) pre (ctl ++ diff) (lit ++ rest)
          (omega (arith, lc, length-append ctl diff))) in
    let t2 : take (length lit) (lit ++ rest) ≡ lit = take-append_left (length lit) lit rest refl in
    let l : length (built ++ add_bytes source p 0 diff) ≡ length built + length diff =
      length-append built _ ∙ ap (λ (t : ℕ). length built + t) (length-add_bytes source p 0 diff) in
    rw (
      d1,
      t1,
      d2,
      t2,
      le→ltb {a = 0x7FFF_FFFF} {b = length diff} (omega arith),
      le→ltb {a = 0x7FFF_FFFF} {b = length lit} (omega arith),
      le→ltb {a = size} {b = length built + length diff} (omega arith),
      le→ltb {a = length patch} {b = length pre + 24 + length diff} (omega (arith, long)),
      l,
      le→ltb {a = size} {b = length built + length diff + length lit} (omega arith),
      le→ltb {a = length patch} {b = length pre + 24 + length diff + length lit}
          (omega (arith, long)),
    )
