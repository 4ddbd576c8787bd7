-- ===== src/Compiler.antt =====
-- The compiler (crates/compiler/src): types, unification, the type checker and the analyses.
pub mod Types
pub mod Unification
pub mod CaptureAnalysis
pub mod CallGraph
pub mod BuiltinTable
pub mod TypeChecker
