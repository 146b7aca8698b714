-- ===== src/Pa19/Kept.antt =====
-- src/pa19/mod.rs: what the transform of call instructions leaves as it was, and that it ends.
use msdelta.Base.{
  ℕ, zero, suc, ◌+◌, ◌-◌, ◌≤◌, ◌<◌, ◌≡◌, min, inl, inr, refl, ◌∙◌, arith, not, ◌&&◌, List, ◌++◌,
  length, take, drop, get_or, le→leb, lt→leb, ◌==◌, le_cases, Bool-cases, length-append,
  length-take, length-drop, drop-append_left, drop-drop,
}
use msdelta.Base.Int.{ℤ, pos, as_i32, as_u32, ltb_ℤ, ◌+ℤ◌, ◌-ℤ◌}
use msdelta.Base.Bytes.{le_bytes, length-le_bytes}
use msdelta.Pa19.E8.{operand, put_operand, e8_step, e8_loop, e8_transform_decode}

-- As many bytes as before, and the same ones from `limit` on.
abbrev pub KeepsFrom : ℕ → List ℕ → List ℕ → Type 0
KeepsFrom limit bytes out = (length out ≡ length bytes) × (drop limit out ≡ drop limit bytes)

put_operand-KeepsFrom :
    (limit i : ℕ) (bytes : List ℕ) (v : ℤ)
    → i + 5 ≤ limit
    → limit ≤ length bytes
    → KeepsFrom limit bytes (put_operand bytes i v)
put_operand-KeepsFrom limit i bytes v h k =
    let front : List ℕ = take (i + 1) bytes in
    let word : List ℕ = le_bytes 4 (as_u32 v) in
    let back : List ℕ = drop (i + 5) bytes in
    let lf = length-take (i + 1) bytes in
    let lw = length-le_bytes 4 (as_u32 v) in
    let past : drop (i + 5) (front ++ (word ++ back)) ≡ back =
      rw
        (
          ← drop-drop (i + 1) 4 (i + 5) (front ++ (word ++ back)) (omega arith),
          drop-append_left (i + 1) front (word ++ back) (omega (arith, lf, h, k)),
        )
        (drop-append_left 4 word back (omega (arith, lw))) in
    (
      omega (
        arith,
        length-append front (word ++ back),
        length-append word back,
        lf,
        lw,
        length-drop (i + 5) bytes,
        h,
        k,
      ),
      rw
          (
            ← drop-drop (i + 5) (limit - (i + 5)) limit (front ++ (word ++ back))
                (omega (arith, h)),
            past,
          )
          (drop-drop (i + 5) (limit - (i + 5)) limit bytes (omega (arith, h))),
    )

e8_step-KeepsFrom :
    (file_size : ℤ) (limit i : ℕ) (bytes : List ℕ)
    → i + 5 ≤ limit
    → limit ≤ length bytes
    → let (bytes', by) = e8_step file_size i bytes in (0 < by) × KeepsFrom limit bytes bytes'
unfolding e8_step
e8_step-KeepsFrom file_size limit i bytes h k =
    let v : ℤ = operand bytes i in
    let put = λ (w : ℤ). put_operand-KeepsFrom limit i bytes w h k in
    elim (Bool-cases (get_or bytes i 0 == 0xE8)) [
      | inr other ↦ rw other (omega arith, (refl, refl))
      | inl call ↦ elim (Bool-cases (not (ltb_ℤ v (pos 0)) && ltb_ℤ v file_size)) [
        | inl inside ↦ rw (call, inside) (omega arith, put (as_i32 (v -ℤ pos i)))
        | inr outside ↦ elim (Bool-cases (not (ltb_ℤ (pos i) (as_i32 (pos 0 -ℤ v))))) [
          | inl low ↦ rw (call, outside, low) (omega arith, put (as_i32 (v +ℤ file_size)))
          | inr high ↦ rw (call, outside, high) (omega arith, (refl, refl))
        ]
      ]
    ]

e8_loop-KeepsFrom :
    (fuel : ℕ) (file_size : ℤ) (limit i : ℕ) (bytes : List ℕ)
    → limit ≤ length bytes
    → KeepsFrom limit bytes (e8_loop fuel file_size limit i bytes)
unfolding e8_loop
e8_loop-KeepsFrom zero file_size limit i bytes k = (refl, refl)
e8_loop-KeepsFrom (suc fuel) file_size limit i bytes k = elim (le_cases (i + 5) limit) [
  | inr done ↦ rw (lt→leb done) (refl, refl)
  | inl more ↦
      let step = e8_step file_size i bytes in
      let (on, (same, kept)) = e8_step-KeepsFrom file_size limit i bytes more k in
      let (same', kept') =
        e8_loop-KeepsFrom fuel file_size limit (i + step.1) step.0 (omega (arith, same, k)) in
      rw (le→leb more) (omega (arith, same, same'), kept' ∙ kept)
]

-- The transform of call instructions makes as many bytes as it is given, and every byte from
-- 0x8000 on is the one that was there.
pub e8_transform_decode-KeepsFrom :
    (bytes : List ℕ) → KeepsFrom (min (length bytes) 0x8000) bytes (e8_transform_decode bytes)
unfolding e8_transform_decode
e8_transform_decode-KeepsFrom bytes =
    let limit : ℕ = min (length bytes) 0x8000 in
    e8_loop-KeepsFrom limit (as_i32 (pos (length bytes))) limit 0 bytes (omega arith)
