-- ===== src/Examples/Tables.antt =====
-- Offsets, rift tables and metadata numbers at concrete inputs.
use msdelta.Base.{
  ℕ, ◌+◌, ◌-◌, length, ◌≤◌, ◌^◌, ◌≡◌, ◌≢◌, refl, arith, List, [], ◌∷◌, take, get_or, All, ◌<◌,
}
use msdelta.Base.Int.{pos, negsuc, ◌-ℤ◌, as_u32, as_u64, as_i64, eq_ℤ}
use msdelta.Base.Search.{halve, binary_search, IsAscending, IsLast}
use msdelta.Errors.{ok}
use msdelta.Lzx.Ops.{distance, lru, IsWire, from_raw, to_raw, from_raw-to_raw}
use msdelta.Lzx.Queue.{LruQueue, update, entries, without, update-front}
use msdelta.Lzx.Rift.{
  i64_max, RiftEntry, reset_from, set_vector_entry, get_rift, entry_place, before,
  rift_entry_offset, last_entry,
}
use msdelta.Lzx.Rift.Numbers.{
  value_to_symbol, extra_bits, magnitude_index, number_of, number_of-value_to_symbol,
}
use msdelta.Lzx.Format.{ilog2, flat_code_lengths, leaves, flat_code_lengths-leaves}
use msdelta.Lzx.Rift.Offsets.{
  OffsetRiftTable, from_rift_table, offset_entries, offset_at, offset_of, positions, segment_at,
  segment_at-IsLast,
}
use msdelta.Lzx.Rift.Lookup.{get_rift-constant}
use msdelta.Lzx.Rift.Vector.{IsVector, target_at, reset_from-IsVector, set_vector_entry-target_at}
use msdelta.Pe.Cli.Blob.{
  ReadsBack, write_compressed_u32_preserving_width, read_compressed_u32-write,
}
use msdelta.Pe.Cli.Tokens.{MetadataToken, IsToken, from_raw-to_raw_token, to_raw-from_raw-IsToken}
use msdelta.Pe.Cli.Tokens

back-IsWire : IsWire (distance (negsuc 99))
unfolding IsWire
back-IsWire = omega arith

from_raw-to_raw_example : from_raw (to_raw (distance (negsuc 99))) ≡ distance (negsuc 99)
from_raw-to_raw_example = from_raw-to_raw (distance (negsuc 99)) back-IsWire

-- The number 0x2a000 is read as a distance of 0, and that is written as the last queue entry's.
zero_distance :
    (from_raw 0x2_a000 ≡ distance (pos 0)) × (from_raw (to_raw (distance (pos 0))) ≡ lru 2)
unfolding from_raw to_raw as_u32 as_u64 ◌-ℤ◌
zero_distance = (refl, refl)

abbrev queue : LruQueue
queue = record { entry0 = pos 7; entry1 = pos 8; entry2 = pos 9 }

update-front_example :
    entries (update queue (pos 8)) ≡ pos 8 ∷ take 2 (without (pos 8) (entries queue))
update-front_example = update-front queue (pos 8)

number_of-value_to_symbol_example :
    let c = value_to_symbol (negsuc 1000) in
    (c.symbol < 252)
    × (c.bits ≡ extra_bits (magnitude_index c.symbol).0)
    × (c.extra < 2 ^ c.bits)
    × (c.bits ≤ 61)
    × (number_of c.symbol c.extra ≡ negsuc 1000)
number_of-value_to_symbol_example = number_of-value_to_symbol (negsuc 1000) (omega arith)

abbrev table : List RiftEntry
table =
    record { source = pos 10; target = pos 30 } ∷ record { source = pos 100; target = pos 90 } ∷ []

reaches : (get_rift table (pos 20)).1 ≡ pos 99
unfolding get_rift entry_place before rift_entry_offset last_entry binary_search halve ◌-ℤ◌ as_u64
    as_i64 eq_ℤ
reaches = refl

get_rift-constant_example : get_rift table (pos 99) ≡ get_rift table (pos 20)
get_rift-constant_example =
    get_rift-constant table (pos 20) (pos 99) (omega arith, tt) (omega arith, (omega arith, tt))
      (omega arith) (omega arith) (rw reaches (omega arith))

set_vector_entry-target_at_example :
    IsVector 0 (set_vector_entry (pos 1) (pos 40) (reset_from 0 3))
    × (target_at 1 (set_vector_entry (pos 1) (pos 40) (reset_from 0 3)) ≡ pos 40)
    × (◌≢◌ {A = ℕ} 1 2
        → target_at 2 (set_vector_entry (pos 1) (pos 40) (reset_from 0 3))
          ≡ target_at 2 (reset_from 0 3))
set_vector_entry-target_at_example =
    set_vector_entry-target_at 1 2 (pos 40) (reset_from 0 3) (reset_from-IsVector 0 3)
      (unfold reset_from in omega arith)

read_compressed_u32-write_example :
    ReadsBack (write_compressed_u32_preserving_width (0 ∷ 0 ∷ 5 ∷ []) 2 300) 2 300
read_compressed_u32-write_example = read_compressed_u32-write (0 ∷ 0 ∷ 5 ∷ []) 2 300

abbrev token : MetadataToken
token = record { table = 6; rid = 17 }

token-IsToken : IsToken token
unfolding IsToken
token-IsToken = (omega arith, omega arith, omega arith)

from_raw-to_raw_token_example : Tokens.from_raw (Tokens.to_raw token) ≡ ok token
from_raw-to_raw_token_example = from_raw-to_raw_token token token-IsToken

token-read : Tokens.from_raw 0x0600_0011 ≡ ok token
unfolding Tokens.from_raw Tokens.new_table Tokens.new_rid
token-read = refl

to_raw-from_raw-IsToken_example : IsToken token × (Tokens.to_raw token ≡ 0x0600_0011)
to_raw-from_raw-IsToken_example = to_raw-from_raw-IsToken 0x0600_0011 token (omega arith) token-read

abbrev offsets : OffsetRiftTable
offsets = from_rift_table table

offsets-IsAscending : IsAscending (positions offsets)
unfolding from_rift_table offset_entries
offsets-IsAscending = (omega arith, (omega arith, tt))

segment_at-IsLast_example :
    (i : ℕ) × IsLast (positions offsets) (pos 50) i
    × (offset_at offsets (pos 50) ≡ offset_of offsets i)
    × (segment_at offsets (pos 50)
        ≡ (offset_of offsets i, get_or (positions offsets) (i + 1) i64_max))
segment_at-IsLast_example = segment_at-IsLast offsets (pos 50) offsets-IsAscending

flat_code_lengths-leaves_example :
    (length (flat_code_lengths 600) ≡ 600)
    × All (λ l. (0 < l) × (l ≤ ilog2 (600 - 1) + 1)) (flat_code_lengths 600)
    × (leaves (ilog2 (600 - 1) + 1) (flat_code_lengths 600) ≡ 2 ^ (ilog2 (600 - 1) + 1))
flat_code_lengths-leaves_example = flat_code_lengths-leaves 600 (omega arith) (omega arith)
