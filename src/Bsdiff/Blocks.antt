-- ===== src/Bsdiff/Blocks.antt =====
-- src/bsdiff/mod.rs: what `bscreate` writes of its matches, the body of its loop behind the
-- search and the block at its end. The search is in a plan, the list of its results.
use msdelta.Base.{ℕ, suc, ◌+◌, ◌-◌, ◌%◌, List, [], ◌∷◌, ◌++◌, length, take, drop}
use msdelta.Base.Int.{ℤ, pos, ◌+ℤ◌, ◌-ℤ◌}
use msdelta.Bsdiff.Control.{write_i64}
use msdelta.Bsdiff.Patch.{wrap64, source_byte}

-- The differences of the target's bytes to the source's, from the `i`-th on.
unfoldable pub sub_bytes : List ℕ → ℤ → ℕ → List ℕ → List ℕ
sub_bytes source last_pos i [] = []
sub_bytes source last_pos i (t ∷ ts) =
    (t + 256 - source_byte source (wrap64 (last_pos +ℤ pos i))) % 256
    ∷ sub_bytes source last_pos (suc i) ts

-- What one round of the loop finds: `lens_f`, the length to insert, and `best_pos - lenb`.
pub record Found : Type 0 where
  pub add_len : ℕ
  pub insert_len : ℕ
  pub new_pos : ℤ

-- What the round writes; `ts` is the target from `last_scan` on.
unfoldable pub write_block : List ℕ → ℤ → Found → List ℕ → List ℕ
write_block source last_pos f ts =
    write_i64 (pos f.add_len)
    ++ (write_i64 (pos f.insert_len)
        ++ (write_i64 (f.new_pos -ℤ (last_pos +ℤ pos f.add_len))
            ++ (sub_bytes source last_pos 0 (take f.add_len ts)
                ++ take f.insert_len (drop f.add_len ts))))

-- The block behind the loop.
unfoldable pub write_tail : List ℕ → ℤ → List ℕ → List ℕ
write_tail source last_pos [] = []
write_tail source last_pos (t ∷ ts) =
    write_i64 (pos (length (t ∷ ts)))
    ++ (write_i64 (pos 0) ++ (write_i64 (pos 0) ++ sub_bytes source last_pos 0 (t ∷ ts)))

unfoldable pub write_plan : List ℕ → ℤ → List Found → List ℕ → List ℕ
write_plan source last_pos [] ts = write_tail source last_pos ts
write_plan source last_pos (f ∷ fs) ts =
    write_block source last_pos f ts
    ++ write_plan source f.new_pos fs (drop (f.add_len + f.insert_len) ts)
