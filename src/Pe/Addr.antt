-- ===== src/Pe/Addr.antt =====
-- src/pe/addr.rs: addresses of the source image mapped to those of the target image.
use msdelta.Base.{ℕ, List}
use msdelta.Base.Int.{ℤ, pos, as_u32, as_u64, as_i64, ◌+ℤ◌}
use msdelta.Lzx.Rift.{RiftEntry, map_rift}

pub record SrcRva : Type 0 where
  pub src : ℕ

pub record TgtRva : Type 0 where
  pub tgt : ℕ

-- A sum in i64 wraps.
unfoldable pub map_rva_i64 : List RiftEntry → ℤ → ℤ
map_rva_i64 rift rva = as_i64 (as_u64 (rva +ℤ map_rift rift rva))

unfoldable pub map_rva : List RiftEntry → SrcRva → TgtRva
map_rva rift addr = record { tgt = as_u32 (map_rva_i64 rift (pos addr.src)) }
