-- ===== src/Examples/Patches.antt =====
-- Patches of `bspatch` at concrete inputs.
use msdelta.Base.{◌+◌, ◌≤◌, ◌≡◌, arith, List, [], ◌∷◌, ◌++◌}
use msdelta.Base.Int.{pos, negsuc}
use msdelta.Errors.{ok}
use msdelta.Bsdiff.Control.{read_i64, write_i64, read_i64-write_i64}
use msdelta.Bsdiff.Patch.{bspatch}
use msdelta.Bsdiff.Blocks.{Found, write_plan}
use msdelta.Bsdiff.Extend.{lens_f, lenb, lens_f-lenb-le}
use msdelta.Bsdiff.Match.{search_loop, find_match, Search, no_match}
use msdelta.Bsdiff.Longer.{IsMatch, find_match-IsMatch}
use msdelta.Bsdiff.Halving.{search_loop-ends}
use msdelta.Bsdiff.Repatch.{IsPlan, bspatch-write_plan}

read_i64-write_i64_example : read_i64 (write_i64 (negsuc 299) ++ (5 ∷ [])) ≡ ok (negsuc 299)
read_i64-write_i64_example = read_i64-write_i64 (negsuc 299) (5 ∷ []) (omega arith)

-- Two bytes of difference, one literal, and the rest from the source's start.
abbrev plan : List Found
plan = record { add_len = 2; insert_len = 1; new_pos = negsuc 0 } ∷ []

plan-valid : IsPlan plan (1 ∷ 2 ∷ 9 ∷ 4 ∷ [])
unfolding IsPlan
plan-valid = (omega arith, omega arith, tt)

bspatch-write_plan_example :
    bspatch (1 ∷ 1 ∷ 4 ∷ []) 4 (write_plan (1 ∷ 1 ∷ 4 ∷ []) (pos 0) plan (1 ∷ 2 ∷ 9 ∷ 4 ∷ []))
    ≡ ok (1 ∷ 2 ∷ 9 ∷ 4 ∷ [])
bspatch-write_plan_example =
    bspatch-write_plan (1 ∷ 1 ∷ 4 ∷ []) (1 ∷ 2 ∷ 9 ∷ 4 ∷ []) plan
      (omega arith, (omega arith, (omega arith, tt)))
      (omega arith, (omega arith, (omega arith, (omega arith, tt)))) (omega arith) plan-valid

lens_f-lenb-le_example :
    let forward = lens_f (1 ∷ 2 ∷ 3 ∷ []) (1 ∷ 2 ∷ 9 ∷ 3 ∷ []) 3 0 (pos 0) in
    0 + forward + lenb (1 ∷ 2 ∷ 3 ∷ []) (1 ∷ 2 ∷ 9 ∷ 3 ∷ []) 3 0 forward 2 ≤ 3
lens_f-lenb-le_example =
    lens_f-lenb-le (1 ∷ 2 ∷ 3 ∷ []) (1 ∷ 2 ∷ 9 ∷ 3 ∷ []) 3 0 2 (pos 0) (omega arith)

find_match-IsMatch_example :
    IsMatch
      (7 ∷ 5 ∷ 6 ∷ [])
      (5 ∷ 6 ∷ 8 ∷ [])
      (find_match (1 ∷ 2 ∷ 0 ∷ []) (7 ∷ 5 ∷ 6 ∷ []) (5 ∷ 6 ∷ 8 ∷ []))
find_match-IsMatch_example =
    find_match-IsMatch (1 ∷ 2 ∷ 0 ∷ []) (7 ∷ 5 ∷ 6 ∷ []) (5 ∷ 6 ∷ 8 ∷ [])
      (omega arith, (omega arith, (omega arith, tt)))

abbrev whole_array : Search
whole_array = record { lo = 0; hi = 2; best = no_match }

search_loop-ends_example :
    let last = search_loop (1 ∷ 2 ∷ 0 ∷ []) (7 ∷ 5 ∷ 6 ∷ []) (5 ∷ 6 ∷ 8 ∷ []) 3 whole_array in
    (last.lo ≡ last.hi) × (0 ≤ last.lo) × (last.hi ≤ 2)
search_loop-ends_example =
    search_loop-ends (1 ∷ 2 ∷ 0 ∷ []) (7 ∷ 5 ∷ 6 ∷ []) (5 ∷ 6 ∷ 8 ∷ []) 3 whole_array (omega arith)
      (omega arith)
