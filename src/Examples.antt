-- ===== src/Examples.antt =====
-- Runs of the model at concrete inputs, and the theorems at them.
mod Bits
mod Headers
mod Patches
mod Tables
mod Lzx
mod Huffman
mod Matches
mod Lengths
