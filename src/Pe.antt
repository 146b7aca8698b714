-- ===== src/Pe.antt =====
-- src/pe: executables.
pub mod Addr
pub mod Cli
