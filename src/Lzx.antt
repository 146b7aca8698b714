-- ===== src/Lzx.antt =====
-- src/lzx: the PseudoLzx codec's parts.
pub mod Format
pub mod Ops
pub mod Queue
pub mod Copy
pub mod Copied
pub mod Traced
pub mod Symbols
pub mod Matches
pub mod Slots
pub mod Near
pub mod Far
pub mod Offset
pub mod Length
pub mod Reread
pub mod Written
pub mod Runs
pub mod Expanded
pub mod Items
pub mod Steps
pub mod Recoded
pub mod Lengths
pub mod Decoder
pub mod Decoded
pub mod Target
pub mod Accepted
pub mod Rift
