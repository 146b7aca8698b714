-- ===== src/Bsdiff/Repatch.antt =====
-- `bspatch` makes the target that a patch was written of.
use msdelta.Base.{
  ℕ, zero, suc, ◌+◌, ◌*◌, ◌/◌, ◌^◌, ◌≤◌, ◌<◌, ◌≡◌, inl, inr, refl, ap, ◌∙◌, arith, List, [], ◌∷◌,
  ◌++◌, length, take, drop, All-drop, append_assoc, append-nil, length-append, length-take,
  length-drop, take-append-drop, take_all, eq_cases, le→ltb,
}
use msdelta.Base.Int.{ℤ, pos, ◌+ℤ◌, ◌-ℤ◌}
use msdelta.Base.Bytes.{AreBytes, IsByte}
use msdelta.Errors.{ok}
use msdelta.Bsdiff.Patch.{wrap64, State, blocks, bspatch}
use msdelta.Bsdiff.Blocks.{Found, write_block, write_tail, write_plan}
use msdelta.Bsdiff.Seek.{IsNear, seek_back, seek-HasMagnitude}
use msdelta.Bsdiff.Raw.{raw, length-raw, round}

-- The search of `bscreate` stays within the target, and within i64.
unfoldable pub IsPlan : List Found → List ℕ → Type 0
IsPlan [] ts = Unit
IsPlan (f ∷ fs) ts =
    (f.add_len + f.insert_len ≤ length ts)
    × IsNear f.new_pos
    × IsPlan fs (drop (f.add_len + f.insert_len) ts)

-- The blocks that the encoder writes.
tail_raw :
    (source : List ℕ) (p : ℤ) (t : ℕ) (ts : List ℕ)
    → raw source p (length (t ∷ ts)) 0 (pos 0) (t ∷ ts) ≡ write_tail source p (t ∷ ts)
unfolding raw write_tail
tail_raw source p t ts = rw (take_all (length (t ∷ ts)) (t ∷ ts) (omega arith), append-nil)

block_raw :
    (source : List ℕ) (p : ℤ) (f : Found) (ts : List ℕ)
    → length (write_block source p f ts)
      ≡ length (raw source p f.add_len f.insert_len (f.new_pos -ℤ (p +ℤ pos f.add_len)) ts)
unfolding raw write_block
block_raw source p f ts = refl

-- The loop on a whole patch.
Makes : ℕ → List ℕ → List ℕ → ℕ → State → List ℕ → Type 0
Makes fuel source patch size st target =
    (st' : State) × (blocks fuel source patch size st ≡ ok st') × (st'.built ≡ target)

done :
    (fuel : ℕ) (source patch built : List ℕ) (pt : ℕ) (p : ℤ) (size : ℕ)
    → 0 < fuel
    → size ≤ length built
    → Makes fuel source patch size (record { built = built; patch_pos = pt; old_pos = p }) built
unfolding Makes blocks
done zero source patch built pt p size more full = absurd (omega arith)
done (suc fuel) source patch built pt p size more full =
    (record { built = built; patch_pos = pt; old_pos = p }, rw (le→ltb full), refl)

-- One more round in front of the others.
after_round :
    (fuel : ℕ) (source patch patch' : List ℕ) (size : ℕ) (st st' : State) (target target' : List ℕ)
    → blocks (suc fuel) source patch' size st ≡ blocks fuel source patch' size st'
    → Makes fuel source patch size st' target
    → patch ≡ patch'
    → target ≡ target'
    → Makes (suc fuel) source patch' size st target'
unfolding Makes
after_round fuel source patch patch' size st st' target target' e (last, out, built) same goal =
    (last, e ∙ rw same at out, built ∙ goal)

nil_of : (ts : List ℕ) → length ts ≡ 0 → ts ≡ []
nil_of [] e = refl
nil_of (t ∷ ts) e = absurd (omega (arith, e))

finished :
    (fuel : ℕ) (source patch built ts : List ℕ) (pt : ℕ) (p : ℤ) (size : ℕ)
    → 0 < fuel
    → length built + length ts ≡ size
    → length ts ≡ 0
    → Makes fuel source patch size
        (record { built = built; patch_pos = pt; old_pos = p })
        (built ++ ts)
finished fuel source patch built ts pt p size more total none_ =
    rw (nil_of ts none_, append-nil)
      (done fuel source patch built pt p size more (omega (arith, total, none_)))

tail_made :
    (ts : List ℕ) (fuel : ℕ) (source pre built : List ℕ) (p : ℤ) (size : ℕ)
    → AreBytes source
    → AreBytes ts
    → length built + length ts ≡ size
    → size < 2 ^ 31
    → length (write_tail source p ts) < 24 * fuel
    → Makes fuel source
        (pre ++ write_tail source p ts)
        size
        (record { built = built; patch_pos = length pre; old_pos = p })
        (built ++ ts)
tail_made [] fuel source pre built p size hs ht total small enough =
    finished fuel source _ built [] (length pre) p size (omega (arith, enough)) total refl
tail_made (t ∷ ts) zero source pre built p size hs ht total small enough =
    absurd (omega (arith, enough))
tail_made (t ∷ ts) (suc fuel) source pre built p size hs ht total small enough =
    let n : ℕ = length (t ∷ ts) in
    let all : take (n + 0) (t ∷ ts) ≡ t ∷ ts = take_all (n + 0) (t ∷ ts) (omega arith) in
    let long = length-raw source p n 0 (pos 0) (t ∷ ts) (omega arith) in
    let first =
      round fuel source pre [] built (t ∷ ts) p n 0 (pos 0) size hs ht (omega arith) (omega arith)
        total (omega arith) small in
    let last =
      done fuel source (pre ++ (raw source p n 0 (pos 0) (t ∷ ts) ++ []))
        (built ++ take (n + 0) (t ∷ ts)) (length (pre ++ raw source p n 0 (pos 0) (t ∷ ts)))
        (wrap64 (p +ℤ (pos 0 +ℤ pos n))) size
        (omega (arith, enough, long, ap length (tail_raw source p t ts)))
        (omega (arith, total, length-append built (take (n + 0) (t ∷ ts)), ap length all)) in
    let same : pre ++ (raw source p n 0 (pos 0) (t ∷ ts) ++ [])
        ≡ pre ++ write_tail source p (t ∷ ts) =
      rw (append-nil, tail_raw source p t ts) in
    rw same at (after_round fuel source _ _ size _ _ _ _ first last refl (ap (λ u. built ++ u) all))

plan_made :
    (plan : List Found) (fuel : ℕ) (source pre built ts : List ℕ) (p : ℤ) (size : ℕ)
    → AreBytes source
    → AreBytes ts
    → IsNear p
    → IsPlan plan ts
    → length built + length ts ≡ size
    → size < 2 ^ 31
    → length (write_plan source p plan ts) < 24 * fuel
    → Makes fuel source
        (pre ++ write_plan source p plan ts)
        size
        (record { built = built; patch_pos = length pre; old_pos = p })
        (built ++ ts)
unfolding write_plan IsPlan write_block raw
plan_made [] fuel source pre built ts p size hs ht near plan total small enough =
    tail_made ts fuel source pre built p size hs ht total small enough
plan_made (f ∷ fs) zero source pre built ts p size hs ht near plan total small enough =
    absurd (omega arith)
plan_made (f ∷ fs) (suc fuel) source pre built ts p size hs ht near plan total small enough =
    elim (eq_cases (length ts) 0) [
      | inl none_ ↦
          finished (suc fuel) source _ built ts (length pre) p size (omega arith) total none_
      | inr some_ ↦
          let k : ℕ = f.add_len + f.insert_len in
          let seek : ℤ = f.new_pos -ℤ (p +ℤ pos f.add_len) in
          let blk : List ℕ = write_block source p f ts in
          let rest : List ℕ = write_plan source f.new_pos fs (drop k ts) in
          let (room, near', plan') = plan in
          let long = length-raw source p f.add_len f.insert_len seek ts room in
          let first =
            round fuel source pre rest built ts p f.add_len f.insert_len seek size hs ht
              (seek-HasMagnitude p f.new_pos f.add_len near near'
                (omega (arith, room, total, small)))
              room total (omega arith) small in
          let moved = rw (seek_back p f.new_pos f.add_len near') at first in
          let others =
            plan_made fs fuel source (pre ++ blk) (built ++ take k ts) (drop k ts) f.new_pos size hs
              (All-drop IsByte k ts ht) near' plan'
              (omega (
                arith,
                total,
                room,
                length-append built (take k ts),
                length-take k ts,
                length-drop k ts,
              ))
              small
              (omega (arith, enough, long, block_raw source p f ts, length-append blk rest)) in
          after_round fuel source _ _ size _ _ _ _ moved others (append_assoc pre blk rest) (
            append_assoc built (take k ts) (drop k ts)
            ∙ ap (λ u. built ++ u) (take-append-drop k ts))
    ]

-- For a target of at most 64 MiB and any search that stays within it, `bspatch` applied to the patch
-- that the search's blocks make of the source and the target gives the target.
pub bspatch-write_plan :
    (source target : List ℕ) (plan : List Found)
    → AreBytes source
    → AreBytes target
    → length target ≤ 64 * 1024 * 1024
    → IsPlan plan target
    → bspatch source (length target) (write_plan source (pos 0) plan target) ≡ ok target
unfolding bspatch Makes
bspatch-write_plan source target plan hs ht small valid =
    let patch : List ℕ = write_plan source (pos 0) plan target in
    let (st, e, built) =
      plan_made plan (length patch / 24 + 1) source [] [] target (pos 0) (length target) hs ht
        (omega arith) valid (omega arith) (omega (arith, small)) (omega arith) in
    rw (le→ltb {a = 64 * 1024 * 1024} {b = length target} small, e, built)
