-- ===== src/Lzx/Copy.antt =====
-- src/lzx/decode.rs: `copy_one`, which copies the bytes of one match from the reference or from the
-- output, and beside them the places that they come from.
use msdelta.Base.{
  ℕ, zero, suc, ◌+◌, ◌-◌, ◌^◌, ◌&&◌, Option, none, some, List, [], ◌∷◌, ◌++◌, length, get_or, take,
  drop, ltb, leb, if◌then◌else◌,
}
use msdelta.Base.Int.{ℤ, pos, negsuc, as_u64, ◌-ℤ◌}
use msdelta.Errors.{Result, ok, err, malformed}

-- The bytes so far, and for each the place in the reference that it comes from, or -1.
pub record Written : Type 0 where
  pub output : List ℕ
  pub copy_src : Option (List ℤ)

abbrev pub traced {ℓ} : {A : Type ℓ} → (A → A) → Option A → Option A
traced f none = none
traced f (some p) = some (f p)

-- `(s..e).map(|x| x as i64)`, of `n` numbers.
unfoldable pub span : ℕ → ℕ → List ℤ
span s zero = []
span s (suc n) = pos s ∷ span (suc s) n

unfoldable pub extend_reference : List ℕ → ℕ → ℕ → Written → Written
extend_reference reference s n w = record {
  output = w.output ++ take n (drop s reference);
  copy_src = traced (λ p. p ++ span s n) w.copy_src;
}

-- `extend_from_within`
unfoldable pub extend_within : ℕ → ℕ → Written → Written
extend_within start n w = record {
  output = w.output ++ take n (drop start w.output);
  copy_src = traced (λ p. p ++ take n (drop start p)) w.copy_src;
}

-- `push(output[idx])`
unfoldable pub push_from : ℕ → Written → Written
push_from idx w = record {
  output = w.output ++ (get_or w.output idx 0 ∷ []);
  copy_src = traced (λ p. p ++ (get_or p idx (negsuc 0) ∷ [])) w.copy_src;
}

unfoldable pub push_run : ℕ → ℕ → Written → Written
push_run zero idx w = w
push_run (suc n) idx w = push_run n (suc idx) (push_from idx w)

-- The loop of the match that starts in the reference, which checks its index.
unfoldable pub push_checked : ℕ → ℕ → Written → Result Written
push_checked zero i w = ok w
push_checked (suc n) i w =
    let rest = push_checked n (suc i) (push_from i w) in
    if leb (length w.output) i then err (malformed "back-reference out of output bounds") else rest

unfoldable pub copy_reference : List ℕ → ℕ → ℕ → Written → Result Written
copy_reference reference s len w =
    if ltb (length reference) (s + len)
    then err (malformed "source copy out of reference bounds")
    else ok (extend_reference reference s len w)

unfoldable pub copy_output : ℕ → ℕ → Written → Result Written
copy_output out_start len w =
    if leb (length w.output) out_start
    then err (malformed "back-reference out of output bounds")
    else if leb (out_start + len) (length w.output)
    then ok (extend_within out_start len w)
    else ok (push_run len out_start w)

unfoldable pub copy_both : List ℕ → ℕ → ℕ → ℕ → Written → Result Written
copy_both reference ref_len src_start len w =
    let ref_bytes = ref_len - src_start in
    push_checked (len - ref_bytes) 0 (extend_reference reference src_start ref_bytes w)

-- The place that a match at `dst_pos` copies from; the difference is taken modulo 2^64.
unfoldable pub src_start_of : ℕ → ℤ → ℕ
src_start_of dst_pos distance = as_u64 (pos dst_pos -ℤ distance)

unfoldable pub copy_from : List ℕ → ℕ → ℕ → ℕ → Written → Result Written
copy_from reference ref_len src_start len w =
    if ltb (src_start + len) (2 ^ 64) && leb (src_start + len) ref_len
    then copy_reference reference src_start len w
    else if leb ref_len src_start
    then copy_output (src_start - ref_len) len w
    else copy_both reference ref_len src_start len w

unfoldable pub copy_one : List ℕ → ℕ → ℕ → ℤ → ℕ → Written → Result Written
copy_one reference ref_len dst_pos distance len w =
    copy_from reference ref_len (src_start_of dst_pos distance) len w
