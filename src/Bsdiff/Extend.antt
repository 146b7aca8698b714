-- ===== src/Bsdiff/Extend.antt =====
-- src/bsdiff/mod.rs: how far `bscreate` extends the last match forward and the next one backward.
use msdelta.Base.{
  ℕ, zero, suc, ◌+◌, ◌-◌, ◌*◌, ◌≤◌, inl, inr, arith, Bool, ◌&&◌, not, List, length, get_or, ltb,
  ◌==◌, if◌then◌else◌, Bool-cases,
}
use msdelta.Base.Int.{ℤ, pos, as_u64, ltb_ℤ, ◌+ℤ◌, ◌-ℤ◌}

-- `sp >= 0 && sp < source.len() && source[sp] == target[j]`
unfoldable pub matches : List ℕ → List ℕ → ℤ → ℕ → Bool
matches source target sp j =
    not (ltb_ℤ sp (pos 0))
    && ltb (as_u64 sp) (length source)
    && (get_or source (as_u64 sp) 0 == get_or target j 0)

-- The score of the bytes so far, the best of the scores, and the length that has it.
pub record Score : Type 0 where
  pub s : ℕ
  pub best_s : ℕ
  pub best_len : ℕ

-- One byte more, the `n`-th; `hit` is whether it matches.
unfoldable pub score_byte : Bool → ℕ → Score → Score
score_byte hit n sc =
    let s = if hit then sc.s + 1 else sc.s in
    if ltb n (s * 2) && ltb sc.best_s s
    then record { s = s; best_s = s; best_len = n }
    else record sc { s = s }

-- The forward loop: bytes `i` up to `i + count`.
unfoldable pub forward_from : ℕ → ℕ → List ℕ → List ℕ → ℕ → ℤ → Score → Score
forward_from zero i source target last_scan last_pos sc = sc
forward_from (suc count) i source target last_scan last_pos sc =
    let hit = matches source target (last_pos +ℤ pos i) (last_scan + i) in
    forward_from count (i + 1) source target last_scan last_pos (score_byte hit (i + 1) sc)

unfoldable pub lens_f : List ℕ → List ℕ → ℕ → ℕ → ℤ → ℕ
lens_f source target scan last_scan last_pos =
    (forward_from (scan - last_scan) 0 source target last_scan last_pos
      (record { s = 0; best_s = 0; best_len = 0 })).best_len

-- The backward loop: the bytes `i` up to `i + count` before `scan`.
unfoldable pub backward_from : ℕ → ℕ → List ℕ → List ℕ → ℕ → ℕ → Score → Score
backward_from zero i source target scan best_pos sc = sc
backward_from (suc count) i source target scan best_pos sc =
    let hit = matches source target (pos best_pos -ℤ pos i) (scan - i) in
    backward_from count (i + 1) source target scan best_pos (score_byte hit i sc)

unfoldable pub lenb : List ℕ → List ℕ → ℕ → ℕ → ℕ → ℕ → ℕ
lenb source target scan last_scan forward best_pos =
    (backward_from (scan - (last_scan + forward)) 1 source target scan best_pos
      (record { s = 0; best_s = 0; best_len = 0 })).best_len

score_byte-le :
    (hit : Bool) (n m : ℕ) (sc : Score)
    → sc.best_len ≤ m
    → n ≤ m
    → (score_byte hit n sc).best_len ≤ m
unfolding score_byte
score_byte-le hit n m sc h le =
    elim (Bool-cases (
      ltb n ((if hit then sc.s + 1 else sc.s) * 2)
      && ltb sc.best_s (if hit then sc.s + 1 else sc.s))) [
        | inl better ↦ rw better le
        | inr worse ↦ rw worse h
      ]

forward_from-le :
    (count i m : ℕ) (source target : List ℕ) (last_scan : ℕ) (last_pos : ℤ) (sc : Score)
    → i + count ≤ m
    → sc.best_len ≤ m
    → (forward_from count i source target last_scan last_pos sc).best_len ≤ m
unfolding forward_from
forward_from-le zero i m source target last_scan last_pos sc room h = h
forward_from-le (suc count) i m source target last_scan last_pos sc room h =
    forward_from-le count (i + 1) m source target last_scan last_pos _ (omega arith)
      (score_byte-le _ (i + 1) m sc h (omega arith))

backward_from-le :
    (count i m : ℕ) (source target : List ℕ) (scan best_pos : ℕ) (sc : Score)
    → i + count ≤ m + 1
    → sc.best_len ≤ m
    → (backward_from count i source target scan best_pos sc).best_len ≤ m
unfolding backward_from
backward_from-le zero i m source target scan best_pos sc room h = h
backward_from-le (suc count) i m source target scan best_pos sc room h =
    backward_from-le count (i + 1) m source target scan best_pos _ (omega arith)
      (score_byte-le _ i m sc h (omega arith))

-- The two extensions of a round never reach into each other: together they lie between the last
-- match and the scan position, so the length to insert is what is between them.
pub lens_f-lenb-le :
    (source target : List ℕ) (scan last_scan best_pos : ℕ) (last_pos : ℤ)
    → last_scan ≤ scan
    → let forward = lens_f source target scan last_scan last_pos in
      last_scan + forward + lenb source target scan last_scan forward best_pos ≤ scan
unfolding lens_f lenb
lens_f-lenb-le source target scan last_scan best_pos last_pos le =
    let n : ℕ = scan - last_scan in
    let none_ : Score = record { s = 0; best_s = 0; best_len = 0 } in
    let f =
      forward_from-le n 0 n source target last_scan last_pos none_ (omega arith) (omega arith) in
    let forward : ℕ = (forward_from n 0 source target last_scan last_pos none_).best_len in
    let k : ℕ = scan - (last_scan + forward) in
    let b = backward_from-le k 1 k source target scan best_pos none_ (omega arith) (omega arith) in
    omega (arith, f, b, le)
