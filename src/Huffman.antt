-- ===== src/Huffman.antt =====
-- src/huffman.rs: Huffman tables, built from the lengths of their codes.
pub mod Codes
pub mod Table
pub mod Symbols
pub mod Arrays
pub mod Shape
pub mod Slots
pub mod Filled
pub mod Prefix
pub mod Selected
pub mod Found
pub mod Reading
pub mod Unused
pub mod Reversed
pub mod Blocks
pub mod Codewords
pub mod Complete
pub mod Coder
pub mod Sequence
