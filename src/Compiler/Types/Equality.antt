-- ===== src/Compiler/Types/Equality.antt =====
-- crates/compiler/src/types.rs: the equality that `derive(PartialEq)` gives to types, stack types,
-- effects and side effects.
use cem.Prelude.{Bool, true, false, ◌&&◌, str_eq}
use cem.Compiler.Types.{
  SeqType, int, float, bool, string, symbol, channel, quotation, closure, union, var, StackType,
  empty, cons, row_var, Effect, effect, SideEffect, yields, SideEffects, no_effects, and_effect,
  Captures, no_captures, and_capture,
}

unfoldable mutual
  pub eq_type : SeqType → SeqType → Bool
  eq_type int int = true
  eq_type float float = true
  eq_type bool bool = true
  eq_type string string = true
  eq_type symbol symbol = true
  eq_type channel channel = true
  eq_type (quotation e) (quotation e') = eq_effect e e'
  eq_type (closure e c) (closure e' c') = eq_effect e e' && eq_captures c c'
  eq_type (union n) (union n') = str_eq n n'
  eq_type (var n) (var n') = str_eq n n'
  eq_type _ _ = false

  pub eq_stack : StackType → StackType → Bool
  eq_stack empty empty = true
  eq_stack (row_var n) (row_var n') = str_eq n n'
  eq_stack (cons rest top) (cons rest' top') = eq_stack rest rest' && eq_type top top'
  eq_stack _ _ = false

  pub eq_effect : Effect → Effect → Bool
  eq_effect (effect i o e) (effect i' o' e') =
      eq_stack i i' && eq_stack o o' && eq_side_effects e e'

  pub eq_side_effect : SideEffect → SideEffect → Bool
  eq_side_effect (yields ty) (yields ty') = eq_type ty ty'

  pub eq_side_effects : SideEffects → SideEffects → Bool
  eq_side_effects no_effects no_effects = true
  eq_side_effects (and_effect e rest) (and_effect e' rest') =
      eq_side_effect e e' && eq_side_effects rest rest'
  eq_side_effects _ _ = false

  pub eq_captures : Captures → Captures → Bool
  eq_captures no_captures no_captures = true
  eq_captures (and_capture t c) (and_capture t' c') = eq_type t t' && eq_captures c c'
  eq_captures _ _ = false
