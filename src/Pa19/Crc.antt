-- ===== src/Pa19/Crc.antt =====
-- src/pa19/mod.rs: the CRC of a file.
use msdelta.Base.{ℕ, zero, suc, ◌-◌, ◌/◌, ◌%◌, ◌^◌, bit_xor, List, [], ◌∷◌, ◌==◌, if◌then◌else◌}

-- One round of the inner loop.
unfoldable pub crc_bit : ℕ → ℕ
crc_bit crc = if crc % 2 == 1 then bit_xor (crc / 2) 0xEDB8_8320 else crc / 2

-- It runs eight times for a byte.
unfoldable pub crc_bits : ℕ → ℕ → ℕ
crc_bits zero crc = crc
crc_bits (suc n) crc = crc_bits n (crc_bit crc)

unfoldable pub crc_from : ℕ → List ℕ → ℕ
crc_from crc [] = crc
crc_from crc (byte ∷ bytes) = crc_from (crc_bits 8 (bit_xor crc byte)) bytes

unfoldable pub crc32 : List ℕ → ℕ
crc32 bytes = crc_from 0xFFFF_FFFF bytes

-- `!crc` of a u32.
unfoldable pub crc32_signature : List ℕ → ℕ
crc32_signature bytes = 2 ^ 32 - 1 - crc32 bytes
