-- ===== src/Pa30.antt =====
-- src/pa30: the headers of PA30 and PA31 deltas.
pub mod Header
pub mod Delta
pub mod Contents
pub mod Opened
pub mod Inline
pub mod Nested
pub mod Faithful
