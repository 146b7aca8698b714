-- ===== src/Bsdiff.antt =====
-- src/bsdiff/mod.rs: the patches of `bspatch`. An i64 is held as the integer; its sums are taken
-- modulo 2^64.
pub mod Control
pub mod Patch
pub mod Blocks
pub mod Extend
pub mod Match
pub mod Longer
pub mod Halving
pub mod Seek
pub mod Difference
pub mod Applied
pub mod Raw
pub mod Repatch
