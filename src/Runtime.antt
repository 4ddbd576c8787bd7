-- ===== src/Runtime.antt =====
-- The runtime (crates/core/src, crates/runtime/src): values, the stack, and the words on
-- numbers, lists, maps, variants and weaves.
pub mod Value
pub mod Stack
pub mod Word
pub mod Arithmetic
pub mod Lists
pub mod Maps
pub mod Variants
pub mod Mpmc
pub mod Weave
