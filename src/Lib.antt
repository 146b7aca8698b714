-- ===== src/Lib.antt =====
-- The verification library of msdelta, a decoder and encoder for the MSDelta patch formats.
--
-- The program's parts. A delta file is a magic, a time and a bit stream (src/bitstream). PA30 and
-- PA31 deltas (src/pa30) hold a header, a preprocessing buffer and a patch in it; DCM (src/dcm.rs)
-- wraps such a delta; PA19 (src/pa19) is the older format with plain fields. A patch is made by one
-- of the codecs, PseudoLzx (src/lzx) or bsdiff (src/bsdiff); rift tables (src/lzx/rift.rs) move
-- positions of executables, whose metadata src/pe/cli reads.
--
-- What is modelled, file by file:
--  * Base: what the files share. Numbers are the native ones, a word of w bits has its
--    wrap-around written out, an i64 is an integer with `as_i64` and `as_u64` for its casts, a byte
--    string is a list of numbers, and `le_num` reads it with the lowest byte first. Search is
--    `binary_search_by_key` of Rust's slices, whose rounds halve the places that are left, so as many
--    as there are keys are enough. Of equal keys it takes the last; the standard library does not
--    promise that, so the theorems on lookups ask for keys that ascend.
--  * Errors: src/lib.rs, `Error` and `Result`. A text that the source formats with a number keeps
--    the number. `?` is the bind of a do block. The reader is not kept where an operation fails,
--    since no caller reads on.
--  * Bitstream: src/bitstream/mod.rs. Reader and Writer have a record for the struct and a function
--    per method, in the source's names. Stream is what a reader stands for, a count of bits as one
--    number; Code is the wire format of each kind of number, written down apart from the code;
--    Fields puts calls one behind another into a file, as the formats do, and Fields/At is a reader in
--    front of the fields that are left. `refill_bytes` has the bytes left as fuel, `flush_words` two
--    words, since an accumulator has no more, and `flush_final` a round per bit.
--  * Dcm: src/dcm.rs.
--  * Pa19: src/pa19/mod.rs, header.rs and lzx.rs. The decoder of the lzxd crate is a parameter.
--    Layout is a header written down field by field, apart from the code. The loop of the E8
--    transform has its limit as fuel, since its index grows in each round.
--  * Pa30: src/pa30/header.rs (Header) and the end of `CreateOptions::execute` in
--    src/pa30/encode.rs (Delta), which writes a delta of contents made before.
--  * Bsdiff: src/bsdiff/mod.rs. Control has the control values, Patch `bspatch`, Match the
--    search of `bscreate` for a match, Extend how a match is extended, Blocks what is written for the
--    results; a plan is the list of them. The search halves an interval of the suffix array, so as many
--    rounds as the array has entries are enough. The loop of `bspatch` takes 24 bytes of the patch a
--    round, so a round for each 24 bytes is fuel enough.
--  * Huffman: src/huffman.rs, the tables made from code lengths (Codes, Table) and the symbols read
--    and written with them (Symbols). The source takes any lengths, those too whose codes begin with
--    one another; such codes are not decodable, and a theorem that needs more says so. Coder is what
--    a table promises of its symbols, and Sequence puts symbols one behind another into a file.
--  * Lzx: src/lzx/ops.rs (Ops and Queue), src/lzx/format.rs (Format, Symbols), src/lzx/decode.rs and
--    src/lzx/mod.rs (Copy, Symbols, Lengths, Decoder), of src/lzx/encode.rs the writing of matches
--    (Matches) and of code lengths (Runs), and parts of src/lzx/rift.rs (Rift and below it). A byte
--    of the output and the place that it comes from grow together in a `Written`. The loops of the
--    decompressor take a round for each byte or each length that is missing, those of the compressor
--    one for each length, for the 60 slots of the distances and for the 127 lengths of a run. What a
--    match or a length is written as stands as a list of fields.
--  * Pe: src/pe/addr.rs, src/pe/cli/blob.rs and src/pe/cli/tokens.rs.
--  * Examples: runs at concrete inputs.
--
-- Not modelled: code lengths made from frequencies (src/huffman.rs), the compressor's search for
-- matches and its segments (src/lzx/encode.rs), the other codecs (src/xpress.rs, crates/lzms), the
-- suffix array of `bscreate` and its loop, reverse deltas and preprocessing, the transforms of
-- executables and of their metadata, the command line (src/main.rs) and the tools around the crate
-- (crates/oracle, fuzz, lab). The 32-bit counts of bits hold for inputs of less than 512 MiB, which
-- the theorems on whole files ask for. A patch of src/bsdiff is limited to a target of 64 MiB by the
-- source itself.
pub mod Base
pub mod Errors
pub mod Bitstream
pub mod Dcm
pub mod Pa19
pub mod Pa30
pub mod Bsdiff
pub mod Lzx
pub mod Pe
pub mod Examples
pub mod Huffman
