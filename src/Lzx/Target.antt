-- ===== src/Lzx/Target.antt =====
-- src/lzx/decode.rs and src/lzx/mod.rs: the whole decompression of a patch.
use msdelta.Base.{
  Bool, true, ℕ, ◌+◌, ◌^◌, ◌≤◌, ◌<◌, ◌≡◌, inl, inr, refl, ap, arith, Option, none, some, List, [],
  ◌∷◌, length, eq_cases, eq→==, ne→==,
}
use msdelta.Base.Int.{ℤ}
use msdelta.Errors.{ok, >>=-ok, ok-injective}
use msdelta.Bitstream.Reader
use msdelta.Bitstream.Reader.{BitReader}
use msdelta.Lzx.Rift.{RiftEntry}
use msdelta.Lzx.Rift.Serial
use msdelta.Lzx.Copy.{Written}
use msdelta.Lzx.Traced.{Traces, TracedBy}
use msdelta.Lzx.Decoder.{
  Input, State, rounds, finished, run, read_format, decompress_into, decompress_with_copy_source,
  provenance,
}
use msdelta.Lzx.Decoded.{IsGood, rounds-IsGood}

-- After the loop the output has the target's size, so that its last check never fails.
run-finished :
    (tracking : Bool) (target_size : ℕ) (input : Input) (s s' : State)
    → input.end < 2 ^ 63
    → input.end ≡ length input.reference + target_size
    → IsGood input tracking s
    → input.end ≤ s.position + target_size
    → rounds target_size input s ≡ ok s'
    → (run target_size input s ≡ ok s'.written)
      × (length s'.written.output ≡ target_size)
      × TracedBy input.reference tracking s'.written.output s'.written.copy_src
unfolding run finished
run-finished tracking target_size input s s' small at g enough e =
    let (g', there) =
      rounds-IsGood input tracking small (omega (arith, small, at)) target_size s s' enough g e in
    let full : length s'.written.output ≡ target_size = omega (arith, g'.counted, there, at) in
    (rw (e, eq→== full), full, g'.traces)

run-ok :
    (tracking : Bool) (target_size : ℕ) (input : Input) (s : State) (w : Written)
    → input.end < 2 ^ 63
    → input.end ≡ length input.reference + target_size
    → IsGood input tracking s
    → input.end ≤ s.position + target_size
    → run target_size input s ≡ ok w
    → (length w.output ≡ target_size) × TracedBy input.reference tracking w.output w.copy_src
unfolding run
run-ok tracking target_size input s w small at g enough e =
    let (s', e1, e2) = >>=-ok (rounds target_size input s) (finished target_size) e in
    let (same, full, k) = run-finished tracking target_size input s s' small at g enough e1 in
    let w_is : s'.written ≡ w = ok-injective (rw same at e) in rw (← w_is) (full, k)

decompress_into-ok :
    (tracking : Bool) (reference patch_data : List ℕ) (target_size : ℕ)
    (caller_rift : Option (List RiftEntry)) (w w' : Written)
    → length reference + target_size < 2 ^ 63
    → w.output ≡ []
    → TracedBy reference tracking w.output w.copy_src
    → decompress_into reference patch_data target_size caller_rift w ≡ ok w'
    → (length w'.output ≡ target_size) × TracedBy reference tracking w'.output w'.copy_src
unfolding decompress_into
decompress_into-ok tracking reference [] target_size caller_rift w w' small fresh k e =
    elim (eq_cases target_size 0) [
      | inl nothing ↦
          let e' = rw (eq→== nothing) at e in
          let empty : length w.output ≡ 0 = ap length fresh in
          rw (← ok-injective e') (omega (arith, nothing, empty), k)
      | inr more ↦ let e' = rw (ne→== more) at e in cc
    ]
decompress_into-ok tracking reference (b ∷ bs) target_size caller_rift w w' small fresh k e =
    let (r, e1, e2) = >>=-ok (Reader.new (b ∷ bs)) _ e in
    let (table, e3, e4) = >>=-ok (Serial.from_reader r) _ e2 in
    let (format, e5, e6) = >>=-ok (read_format table.1) _ e4 in
    let empty : length w.output ≡ 0 = ap length fresh in
    run-ok tracking target_size _ _ w' small refl
      (record { counted = omega (arith, empty); inside = omega arith; traces = k }) (omega arith) e6

provenance-Traces :
    (reference output : List ℕ) (src : Option (List ℤ))
    → TracedBy reference true output src
    → Traces reference output (provenance src)
provenance-Traces reference output none k = cc
provenance-Traces reference output (some qs) k = k

-- When the reference and the target together stay below 2^63 bytes and a patch is decompressed
-- without an error, the output has the target's size, the copy-source map has an entry for each of
-- its bytes, and each entry is -1 or a place of the reference that holds that byte.
pub decompress_with_copy_source-Traces :
    (reference patch_data : List ℕ) (target_size : ℕ) (caller_rift : Option (List RiftEntry))
    (output : List ℕ) (copy_src : List ℤ)
    → length reference + target_size < 2 ^ 63
    → decompress_with_copy_source reference patch_data target_size caller_rift
      ≡ ok (output, copy_src)
    → (length output ≡ target_size) × Traces reference output copy_src
unfolding decompress_with_copy_source
decompress_with_copy_source-Traces reference patch_data target_size caller_rift output copy_src
      small e =
    let start : Written = record { output = []; copy_src = some [] } in
    let (w, e1, e2) =
      >>=-ok (decompress_into reference patch_data target_size caller_rift start) _ e in
    let (full, k) =
      decompress_into-ok true reference patch_data target_size caller_rift start w small refl tt
        e1 in
    let same = ok-injective e2 in
    let out : w.output ≡ output = ap (λ t. t.0) same in
    let src : provenance w.copy_src ≡ copy_src = ap (λ t. t.1) same in
    rw (← out, ← src) (full, provenance-Traces reference w.output w.copy_src k)
