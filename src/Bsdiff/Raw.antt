-- ===== src/Bsdiff/Raw.antt =====
-- A block as it is written, read and applied.
use msdelta.Base.{
  ℕ, suc, ◌+◌, ◌^◌, ◌≤◌, ◌<◌, ◌≡◌, sym, ap, ◌∙◌, arith, List, ◌++◌, length, take, drop, All-take,
  append_assoc, length-append, length-take, length-drop, take-add, lt→ltb,
}
use msdelta.Base.Int.{ℤ, pos, ◌+ℤ◌}
use msdelta.Base.Bytes.{AreBytes, IsByte}
use msdelta.Errors.{ok}
use msdelta.Bsdiff.Control.{write_i64, HasMagnitude, length-write_i64}
use msdelta.Bsdiff.Patch.{wrap64, add_bytes, read_control, apply_block, blocks}
use msdelta.Bsdiff.Blocks.{sub_bytes}
use msdelta.Bsdiff.Difference.{add_bytes-sub_bytes, length-sub_bytes}
use msdelta.Bsdiff.Applied.{control_read, block_applied}

-- A block of any kind: `a` bytes of difference and `i` literal ones.
unfoldable pub raw : List ℕ → ℤ → ℕ → ℕ → ℤ → List ℕ → List ℕ
raw source p a i seek ts =
    write_i64 (pos a)
    ++ (write_i64 (pos i)
        ++ (write_i64 seek ++ (sub_bytes source p 0 (take a ts) ++ take i (drop a ts))))

-- Its bytes grouped as they are read.
pub raw-append :
    (source pre rest : List ℕ) (p : ℤ) (a i : ℕ) (seek : ℤ) (ts : List ℕ)
    → pre ++ (raw source p a i seek ts ++ rest)
      ≡ pre
        ++ (write_i64 (pos a)
            ++ (write_i64 (pos i)
                ++ (write_i64 seek
                    ++ (sub_bytes source p 0 (take a ts) ++ (take i (drop a ts) ++ rest)))))
unfolding raw
raw-append source pre rest p a i seek ts = rw (
  append_assoc (write_i64 (pos a)),
  append_assoc (write_i64 (pos i)),
  append_assoc (write_i64 seek),
  append_assoc (sub_bytes source p 0 (take a ts)),
)

pub length-raw :
    (source : List ℕ) (p : ℤ) (a i : ℕ) (seek : ℤ) (ts : List ℕ)
    → a + i ≤ length ts
    → length (raw source p a i seek ts) ≡ 24 + a + i
unfolding raw
length-raw source p a i seek ts h = omega (
  arith,
  length-append (write_i64 (pos a)) _,
  length-append (write_i64 (pos i)) _,
  length-append (write_i64 seek) _,
  length-append (sub_bytes source p 0 (take a ts)) (take i (drop a ts)),
  length-write_i64 (pos a),
  length-write_i64 (pos i),
  length-write_i64 seek,
  length-sub_bytes source p 0 (take a ts),
  length-take a ts,
  length-take i (drop a ts),
  length-drop a ts,
)

-- The block as `block_applied` wants it.
pub raw_applied :
    (source pre rest built ts : List ℕ) (p : ℤ) (a i : ℕ) (seek : ℤ) (size : ℕ)
    → AreBytes source
    → AreBytes ts
    → a + i ≤ length ts
    → length built + length ts ≡ size
    → size < 2 ^ 31
    → apply_block source
        (pre ++ (raw source p a i seek ts ++ rest))
        size
        (a, i, seek)
        (record { built = built; patch_pos = length pre; old_pos = p })
      ≡ ok (record {
        built = built ++ take (a + i) ts;
        patch_pos = length (pre ++ raw source p a i seek ts);
        old_pos = wrap64 (p +ℤ (seek +ℤ pos a));
      })
raw_applied source pre rest built ts p a i seek size hs ht room total small =
    let ctl : List ℕ = write_i64 (pos a) ++ (write_i64 (pos i) ++ write_i64 seek) in
    let diff : List ℕ = sub_bytes source p 0 (take a ts) in
    let lit : List ℕ = take i (drop a ts) in
    let la : length diff ≡ a =
      length-sub_bytes source p 0 (take a ts) ∙ omega (arith, length-take a ts) in
    let li : length lit ≡ i = omega (arith, length-take i (drop a ts), length-drop a ts) in
    let lc : length ctl ≡ 24 = omega (
      arith,
      length-append (write_i64 (pos a)) (write_i64 (pos i) ++ write_i64 seek),
      length-append (write_i64 (pos i)) (write_i64 seek),
      length-write_i64 (pos a),
      length-write_i64 (pos i),
      length-write_i64 seek,
    ) in
    let patch : pre ++ (ctl ++ (diff ++ (lit ++ rest)))
        ≡ pre ++ (raw source p a i seek ts ++ rest) =
      rw (append_assoc (write_i64 (pos a)), append_assoc (write_i64 (pos i)))
        (sym (raw-append source pre rest p a i seek ts)) in
    let added : add_bytes source p 0 diff ≡ take a ts =
      add_bytes-sub_bytes source p 0 (take a ts) hs (All-take IsByte a ts ht) in
    let made : (built ++ add_bytes source p 0 diff) ++ lit ≡ built ++ take (a + i) ts =
      rw added
        (append_assoc built (take a ts) lit ∙ ap (λ t. built ++ t) (sym (take-add a i ts))) in
    let behind : length pre + 24 + a + i ≡ length (pre ++ raw source p a i seek ts) =
      omega (
        arith,
        length-append pre (raw source p a i seek ts),
        length-raw source p a i seek ts room,
      ) in
    let applied =
      block_applied source pre ctl diff lit rest built size seek p lc (omega (arith, la, li, total))
        small in
    rw (la, li, patch, made, behind) at applied

pub raw_read :
    (source pre rest ts : List ℕ) (p : ℤ) (a i : ℕ) (seek : ℤ)
    → HasMagnitude seek
    → a < 2 ^ 31
    → i < 2 ^ 31
    → read_control (pre ++ (raw source p a i seek ts ++ rest)) (length pre) ≡ ok (a, i, seek)
raw_read source pre rest ts p a i seek hs ha hi = rw raw-append (
    control_read a i seek pre (sub_bytes source p 0 (take a ts) ++ (take i (drop a ts) ++ rest)) ha
      hi hs)

-- One round of `bspatch` on a block.
pub round :
    (fuel : ℕ) (source pre rest built ts : List ℕ) (p : ℤ) (a i : ℕ) (seek : ℤ) (size : ℕ)
    → AreBytes source
    → AreBytes ts
    → HasMagnitude seek
    → a + i ≤ length ts
    → length built + length ts ≡ size
    → 0 < length ts
    → size < 2 ^ 31
    → blocks
        (suc fuel)
        source
        (pre ++ (raw source p a i seek ts ++ rest))
        size
        (record { built = built; patch_pos = length pre; old_pos = p })
      ≡ blocks fuel source (pre ++ (raw source p a i seek ts ++ rest)) size (record {
        built = built ++ take (a + i) ts;
        patch_pos = length (pre ++ raw source p a i seek ts);
        old_pos = wrap64 (p +ℤ (seek +ℤ pos a));
      })
unfolding blocks
round fuel source pre rest built ts p a i seek size hs ht hm room total more small = rw (
  lt→ltb {a = length built} {b = size} (omega arith),
  raw_read source pre rest ts p a i seek hm (omega arith) (omega arith),
  raw_applied source pre rest built ts p a i seek size hs ht room total small,
)
