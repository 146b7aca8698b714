-- ===== src/Pa19/E8.antt =====
-- src/pa19/mod.rs: the transform of call instructions. An i32 is held as the integer.
use msdelta.Base.{
  ℕ, zero, suc, ◌+◌, min, ◌&&◌, not, List, ◌++◌, length, take, drop, get_or, leb, ◌==◌,
  if◌then◌else◌,
}
use msdelta.Base.Int.{ℤ, pos, as_i32, as_u32, ltb_ℤ, ◌+ℤ◌, ◌-ℤ◌}
use msdelta.Base.Bytes.{le_num, le_bytes}

-- `bytes[i + 1..i + 5]` as an i32, and what the loop puts there.
abbrev pub operand : List ℕ → ℕ → ℤ
operand bytes i = as_i32 (pos (le_num (take 4 (drop (i + 1) bytes))))

abbrev pub put_operand : List ℕ → ℕ → ℤ → List ℕ
put_operand bytes i v = take (i + 1) bytes ++ (le_bytes 4 (as_u32 v) ++ drop (i + 5) bytes)

-- One round of the loop: the bytes, and how far `i` moves. The sums are taken modulo 2^32.
unfoldable pub e8_step : ℤ → ℕ → List ℕ → List ℕ × ℕ
e8_step file_size i bytes =
    let abs_offset = operand bytes i in
    if get_or bytes i 0 == 0xE8
    then (if not (ltb_ℤ abs_offset (pos 0)) && ltb_ℤ abs_offset file_size
        then (put_operand bytes i (as_i32 (abs_offset -ℤ pos i)), 5)
        else if not (ltb_ℤ (pos i) (as_i32 (pos 0 -ℤ abs_offset)))
        then (put_operand bytes i (as_i32 (abs_offset +ℤ file_size)), 5)
        else (bytes, 1))
    else (bytes, 1)

-- `while i + 5 <= limit`; `i` grows in each round, so `limit` rounds are enough.
unfoldable pub e8_loop : ℕ → ℤ → ℕ → ℕ → List ℕ → List ℕ
e8_loop zero file_size limit i bytes = bytes
e8_loop (suc fuel) file_size limit i bytes =
    let (bytes', by) = e8_step file_size i bytes in
    let rest = e8_loop fuel file_size limit (i + by) bytes' in
    if leb (i + 5) limit then rest else bytes

unfoldable pub e8_transform_decode : List ℕ → List ℕ
e8_transform_decode bytes =
    let limit = min (length bytes) 0x8000 in
    e8_loop limit (as_i32 (pos (length bytes))) limit 0 bytes
