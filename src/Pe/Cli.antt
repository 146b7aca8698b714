-- ===== src/Pe/Cli.antt =====
-- src/pe/cli: the metadata of managed executables.
pub mod Blob
pub mod Tokens
