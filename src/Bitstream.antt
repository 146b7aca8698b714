-- ===== src/Bitstream.antt =====
-- src/bitstream/mod.rs: the LSB-first bit reader and bit writer of PA30 and PA31 deltas.
pub mod Words
pub mod Stream
pub mod Reader
pub mod Writer
pub mod Code
pub mod Fields
