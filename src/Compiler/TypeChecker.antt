-- ===== src/Compiler/TypeChecker.antt =====
-- crates/compiler/src/typechecker.rs: the type checker.
pub mod State
pub mod Freshen
pub mod Positions
pub mod Apply
pub mod Branches
pub mod Matching
pub mod Infer
pub mod Check
pub mod CheckProgram
pub mod Ground
pub mod Sound
