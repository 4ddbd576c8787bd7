-- ===== src/Compiler/BuiltinTable/Entry.antt =====
-- crates/compiler/src/builtins.rs: the macros `stack!` and `builtin!`. Every stack that they build
-- stands on the row variable "a".
use Prim.Native.String.{String}
use cem.Prelude.{List}
use cem.Compiler.Types.{SeqType, StackType, row_var, push_all, Effect, pure_effect}

unfoldable pub stack_over : String → List SeqType → StackType
unfolding push_all
stack_over row types = push_all (row_var row) types

unfoldable pub entry : String → List SeqType → List SeqType → String × Effect
unfolding stack_over pure_effect
entry name ins outs = (name, pure_effect (stack_over "a" ins) (stack_over "a" outs))
