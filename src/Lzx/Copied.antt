-- ===== src/Lzx/Copied.antt =====
-- src/lzx/decode.rs: `copy_one` against the copy of a match byte by byte.
use msdelta.Base.{
  ℕ, zero, suc, ◌+◌, ◌-◌, ◌^◌, ◌≤◌, ◌<◌, ◌≡◌, inl, inr, refl, ap, sym, ◌∙◌, arith, List, [], ◌∷◌,
  ◌++◌, append-nil, append_assoc, length, length-append, get_or, take, drop, drop-get_or, ltb,
  le→leb, lt→leb, le→ltb, lt→ltb, le_cases, drop-append_left, drop-drop, length-take, length-drop,
  Bool-cases,
}
use msdelta.Base.Int.{ℤ}
use msdelta.Errors.{Result, ok, err, malformed}
use msdelta.Lzx.Copy.{
  Written, extend_reference, extend_within, push_from, push_run, push_checked, copy_reference,
  copy_output, copy_both, copy_from, copy_one, src_start_of,
}

-- The copy of `n` bytes from the place `p` of a window, each of which joins the window at once.
unfoldable pub lz_copy : ℕ → ℕ → List ℕ → List ℕ
lz_copy zero p window = window
lz_copy (suc n) p window = lz_copy n (suc p) (window ++ (get_or window p 0 ∷ []))

get_or-append_left :
    (i : ℕ) (xs ys : List ℕ) → i < length xs → get_or (xs ++ ys) i 0 ≡ get_or xs i 0
get_or-append_left i [] ys h = absurd (omega arith)
get_or-append_left zero (x ∷ xs) ys h = refl
get_or-append_left (suc i) (x ∷ xs) ys h = get_or-append_left i xs ys (omega arith)

get_or-append_right :
    (i j : ℕ) (xs ys : List ℕ) → j ≡ length xs + i → get_or (xs ++ ys) j 0 ≡ get_or ys i 0
get_or-append_right i j [] ys e = let e' : j ≡ i = omega arith in rw e' refl
get_or-append_right i zero (x ∷ xs) ys e = absurd (omega arith)
get_or-append_right i (suc j) (x ∷ xs) ys e = get_or-append_right i j xs ys (omega arith)

-- A copy that ends before the window's old end is a slice of it.
lz_copy-slice_from :
    (n p : ℕ) (window new : List ℕ)
    → p + n ≤ length window
    → lz_copy n p (window ++ new) ≡ window ++ (new ++ take n (drop p window))
unfolding lz_copy
lz_copy-slice_from zero p window new h = rw append-nil
lz_copy-slice_from (suc n) p window new h =
    let inside : p < length window = omega arith in
    let ih =
      lz_copy-slice_from n (suc p) window (new ++ (get_or window p 0 ∷ [])) (omega (arith, h)) in
    rw (
      drop-get_or p window 0 inside,
      get_or-append_left p window new inside,
      append_assoc window new (get_or window p 0 ∷ []),
      ih,
      append_assoc new (get_or window p 0 ∷ []) (take n (drop (suc p) window)),
    )

pub lz_copy-slice :
    (n p : ℕ) (window : List ℕ)
    → p + n ≤ length window
    → lz_copy n p window ≡ window ++ take n (drop p window)
lz_copy-slice n p window h = let e = lz_copy-slice_from n p window [] h in rw append-nil at e

pub lz_copy-add :
    (m n p : ℕ) (window : List ℕ)
    → lz_copy (m + n) p window ≡ lz_copy n (p + m) (lz_copy m p window)
unfolding lz_copy
lz_copy-add zero n p window =
    let e : zero + n ≡ n = omega arith in let e' : p + zero ≡ p = omega arith in rw (e, e')
lz_copy-add (suc m) n p window =
    let e : suc m + n ≡ suc (m + n) = omega arith in
    let e' : p + suc m ≡ suc p + m = omega arith in
    rw (e, e') (lz_copy-add m n (suc p) (window ++ (get_or window p 0 ∷ [])))

push_run-lz_copy :
    (reference : List ℕ) (n i p : ℕ) (w : Written)
    → p ≡ length reference + i
    → reference ++ (push_run n i w).output ≡ lz_copy n p (reference ++ w.output)
unfolding push_run push_from lz_copy
push_run-lz_copy reference zero i p w e = refl
push_run-lz_copy reference (suc n) i p w e =
    rw
      (
        get_or-append_right i p reference w.output e,
        append_assoc reference w.output (get_or w.output i 0 ∷ []),
      )
      (push_run-lz_copy reference n (suc i) (suc p) (push_from i w) (omega (arith, e)))

-- The index that the checked loop starts with is in range as long as the output grows with it.
push_checked-push_run :
    (n i : ℕ) (w : Written) → i < length w.output → push_checked n i w ≡ ok (push_run n i w)
unfolding push_checked push_run push_from
push_checked-push_run zero i w h = refl
push_checked-push_run (suc n) i w h = rw (lt→leb h) (
    push_checked-push_run n (suc i) (push_from i w)
      (omega (arith, h, length-append w.output (get_or w.output i 0 ∷ []))))

drop-append_right : (i p : ℕ) (xs ys : List ℕ) → p ≡ length xs + i → drop p (xs ++ ys) ≡ drop i ys
drop-append_right i p xs ys e =
    rw (← drop-drop (length xs) i p (xs ++ ys) e, drop-append_left (length xs) xs ys refl)

take-drop-append_left :
    (n p : ℕ) (xs ys : List ℕ) → p + n ≤ length xs → take n (drop p (xs ++ ys)) ≡ take n (drop p xs)
take-drop-append_left n zero [] ys h = let e : n ≡ 0 = omega (arith, h) in rw e
take-drop-append_left n (suc p) [] ys h = absurd (omega arith)
take-drop-append_left zero zero (x ∷ xs) ys h = refl
take-drop-append_left (suc n) zero (x ∷ xs) ys h =
    ap (λ t. x ∷ t) (take-drop-append_left n zero xs ys (omega (arith, h)))
take-drop-append_left n (suc p) (x ∷ xs) ys h = take-drop-append_left n p xs ys (omega (arith, h))

-- That a copy gave a result, and the window that it left.
abbrev pub Copies : List ℕ → ℕ → ℕ → Written → Result Written → Type 0
Copies reference src len w result =
    (w' : Written) × (result ≡ ok w')
    × (reference ++ w'.output ≡ lz_copy len src (reference ++ w.output))

extend_reference-lz_copy :
    (reference : List ℕ) (src len : ℕ) (w : Written)
    → src + len ≤ length reference
    → reference ++ (extend_reference reference src len w).output
      ≡ lz_copy len src (reference ++ w.output)
unfolding extend_reference
extend_reference-lz_copy reference src len w h =
    let fits : src + len ≤ length (reference ++ w.output) =
      omega (arith, h, length-append reference w.output) in
    rw (
      lz_copy-slice len src (reference ++ w.output) fits,
      take-drop-append_left len src reference w.output h,
      append_assoc reference w.output (take len (drop src reference)),
    )

copy_reference-Copies :
    (reference : List ℕ) (src len : ℕ) (w : Written)
    → src + len ≤ length reference
    → Copies reference src len w (copy_reference reference src len w)
unfolding copy_reference
copy_reference-Copies reference src len w h = (
  extend_reference reference src len w,
  rw (le→ltb h),
  extend_reference-lz_copy reference src len w h,
)

copy_output-Copies :
    (reference : List ℕ) (src i len : ℕ) (w : Written)
    → src ≡ length reference + i
    → i < length w.output
    → Copies reference src len w (copy_output i len w)
unfolding copy_output
copy_output-Copies reference src i len w e h = elim (le_cases (i + len) (length w.output)) [
  | inl inside ↦
      let fits : src + len ≤ length (reference ++ w.output) =
        omega (arith, e, inside, length-append reference w.output) in
      (
        extend_within i len w,
        rw (lt→leb h, le→leb inside),
        unfold extend_within in
            rw (
              lz_copy-slice len src (reference ++ w.output) fits,
              drop-append_right i src reference w.output e,
              append_assoc reference w.output (take len (drop i w.output)),
            ),
      )
  | inr over ↦
      (push_run len i w, rw (lt→leb h, lt→leb over), push_run-lz_copy reference len i src w e)
]

copy_both-Copies :
    (reference : List ℕ) (src len : ℕ) (w : Written)
    → src < length reference
    → length reference < src + len
    → Copies reference src len w (copy_both reference (length reference) src len w)
unfolding copy_both
copy_both-Copies reference src len w h k =
    let ref_bytes : ℕ = length reference - src in
    let first : Written = extend_reference reference src ref_bytes w in
    let slice : List ℕ = take ref_bytes (drop src reference) in
    let some_ : 0 < length first.output =
      unfold extend_reference in
      omega (
        arith,
        length-append w.output slice,
        length-take ref_bytes (drop src reference),
        length-drop src reference,
        h,
      ) in
    let parts : ref_bytes + (len - ref_bytes) ≡ len = omega (arith, k) in
    let meet : src + ref_bytes ≡ length reference = omega (arith, h) in
    let split = lz_copy-add ref_bytes (len - ref_bytes) src (reference ++ w.output) in
    (
      push_run (len - ref_bytes) 0 first,
      push_checked-push_run (len - ref_bytes) 0 first some_,
      push_run-lz_copy reference (len - ref_bytes) 0 (length reference) first (omega arith)
          ∙ rw (extend_reference-lz_copy reference src ref_bytes w (omega (arith, meet)))
              (rw (parts, meet) at (sym split)),
    )

copy_from-Copies :
    (reference : List ℕ) (src len : ℕ) (w : Written)
    → src < length reference + length w.output
    → src + len < 2 ^ 64
    → Copies reference src len w (copy_from reference (length reference) src len w)
unfolding copy_from
copy_from-Copies reference src len w h k = elim (le_cases (src + len) (length reference)) [
  | inl inside ↦ rw (lt→ltb k, le→leb inside) (copy_reference-Copies reference src len w inside)
  | inr over ↦ elim (le_cases (length reference) src) [
    | inl behind ↦
        rw (lt→ltb k, lt→leb over, le→leb behind)
          (copy_output-Copies reference src (src - length reference) len w (omega (arith, behind))
            (omega (arith, h, behind)))
    | inr before ↦
        rw (lt→ltb k, lt→leb over, lt→leb before) (copy_both-Copies reference src len w before over)
  ]
]

-- A match whose source starts in the reference or in the output so far, and whose places stay below
-- 2^64, is copied without an error, on each of the three paths of `copy_one`: reference and output
-- together become the window that the copy byte by byte makes, where each byte joins the window
-- before the next one is read.
pub copy_one-Copies :
    (reference : List ℕ) (dst_pos : ℕ) (distance : ℤ) (len : ℕ) (w : Written)
    → src_start_of dst_pos distance < length reference + length w.output
    → src_start_of dst_pos distance + len < 2 ^ 64
    → Copies reference
        (src_start_of dst_pos distance)
        len
        w
        (copy_one reference (length reference) dst_pos distance len w)
unfolding copy_one
copy_one-Copies reference dst_pos distance len w h k =
    copy_from-Copies reference (src_start_of dst_pos distance) len w h k

-- A match of at least a byte whose source starts behind the output so far is refused.
pub copy_one-refused :
    (reference : List ℕ) (dst_pos : ℕ) (distance : ℤ) (len : ℕ) (w : Written)
    → 0 < len
    → length reference + length w.output ≤ src_start_of dst_pos distance
    → copy_one reference (length reference) dst_pos distance len w
      ≡ err (malformed "back-reference out of output bounds")
unfolding copy_one copy_from copy_output
copy_one-refused reference dst_pos distance len w h k =
    let src : ℕ = src_start_of dst_pos distance in
    let over : length reference < src + len = omega (arith, h, k) in
    let behind : length reference ≤ src = omega (arith, k) in
    let out : length w.output ≤ src - length reference = omega (arith, k) in
    elim (Bool-cases (ltb (src + len) (2 ^ 64))) [
      | inl low ↦ rw (low, lt→leb over, le→leb behind, le→leb out)
      | inr high ↦ rw (high, le→leb behind, le→leb out)
    ]
