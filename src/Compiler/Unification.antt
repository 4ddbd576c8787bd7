-- ===== src/Compiler/Unification.antt =====
-- crates/compiler/src/unification.rs: substitutions and the unification of types and stack types.
-- An error carries what its message prints. `unify_stacks` of the source calls itself on stacks
-- that a substitution has changed, so the model counts calls down from a fuel.
pub mod Substitution
pub mod Unify
pub mod Compose
pub mod Fresh
pub mod Flat
pub mod Steps
pub mod Single
pub mod Sound
pub mod Fuel
pub mod Complete
pub mod General
pub mod Quotations
