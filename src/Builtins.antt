-- ===== src/Builtins.antt =====
-- Built-in words on integers, Booleans and the stack: their types (crates/compiler/src/builtins.rs)
-- beside the runtime functions that they are compiled to (BUILTIN_SYMBOLS of
-- crates/compiler/src/codegen/runtime.rs).
pub mod Names
pub mod Semantics
pub mod Keeps
pub mod Sound
use Prim.Native.String.{String}
use cem.Compiler.Types.{SeqType, int, bool, var, StackType, row_var, push, Effect, pure_effect}
use cem.Runtime.Stack
use cem.Runtime.Stack.{Stack, Run}
use cem.Runtime.Arithmetic

-- One constructor for each entry of the tables; `i.+` and `i.add` are two entries that agree.
pub data Builtin : Type 0 where
  i_add i_subtract i_multiply i_divide i_modulo : Builtin
  i_eq i_lt i_gt i_lte i_gte i_neq : Builtin
  logical_and logical_or logical_not : Builtin
  band bor bxor shl shr bnot popcount clz ctz int_bits : Builtin
  dup drop swap over rot nip tuck two_dup pick roll : Builtin

-- `stack!(a)`, and the type variables of `ty!`
abbrev row : StackType
row = row_var "a"

abbrev t : SeqType
t = var "T"

abbrev u : SeqType
u = var "U"

abbrev v : SeqType
v = var "V"

abbrev int_int_to_int : Effect
int_int_to_int = pure_effect (push (push row int) int) (push row int)

abbrev int_int_to_int_bool : Effect
int_int_to_int_bool = pure_effect (push (push row int) int) (push (push row int) bool)

abbrev int_int_to_bool : Effect
int_int_to_bool = pure_effect (push (push row int) int) (push row bool)

abbrev bool_bool_to_bool : Effect
bool_bool_to_bool = pure_effect (push (push row bool) bool) (push row bool)

abbrev int_to_int : Effect
int_to_int = pure_effect (push row int) (push row int)

unfoldable pub signature : Builtin → Effect
unfolding push pure_effect
signature i_add = int_int_to_int
signature i_subtract = int_int_to_int
signature i_multiply = int_int_to_int
signature i_divide = int_int_to_int_bool
signature i_modulo = int_int_to_int_bool
signature i_eq = int_int_to_bool
signature i_lt = int_int_to_bool
signature i_gt = int_int_to_bool
signature i_lte = int_int_to_bool
signature i_gte = int_int_to_bool
signature i_neq = int_int_to_bool
signature logical_and = bool_bool_to_bool
signature logical_or = bool_bool_to_bool
signature logical_not = pure_effect (push row bool) (push row bool)
signature band = int_int_to_int
signature bor = int_int_to_int
signature bxor = int_int_to_int
signature shl = int_int_to_int
signature shr = int_int_to_int
signature bnot = int_to_int
signature popcount = int_to_int
signature clz = int_to_int
signature ctz = int_to_int
signature int_bits = pure_effect row (push row int)
signature dup = pure_effect (push row t) (push (push row t) t)
signature drop = pure_effect (push row t) row
signature swap = pure_effect (push (push row t) u) (push (push row u) t)
signature over = pure_effect (push (push row t) u) (push (push (push row t) u) t)
signature rot = pure_effect (push (push (push row t) u) v) (push (push (push row u) v) t)
signature nip = pure_effect (push (push row t) u) (push row u)
signature tuck = pure_effect (push (push row t) u) (push (push (push row u) t) u)
signature two_dup = pure_effect (push (push row t) u) (push (push (push (push row t) u) t) u)
signature pick = pure_effect (push (push row t) int) (push (push row t) t)
signature roll = pure_effect (push (push row t) int) (push row t)

unfoldable pub symbol : Builtin → Stack → Run Stack
symbol i_add = Arithmetic.add
symbol i_subtract = Arithmetic.subtract
symbol i_multiply = Arithmetic.multiply
symbol i_divide = Arithmetic.divide
symbol i_modulo = Arithmetic.modulo
symbol i_eq = Arithmetic.eq
symbol i_lt = Arithmetic.lt
symbol i_gt = Arithmetic.gt
symbol i_lte = Arithmetic.lte
symbol i_gte = Arithmetic.gte
symbol i_neq = Arithmetic.neq
symbol logical_and = Arithmetic.logical_and
symbol logical_or = Arithmetic.logical_or
symbol logical_not = Arithmetic.logical_not
symbol band = Arithmetic.band
symbol bor = Arithmetic.bor
symbol bxor = Arithmetic.bxor
symbol shl = Arithmetic.shl
symbol shr = Arithmetic.shr
symbol bnot = Arithmetic.bnot
symbol popcount = Arithmetic.popcount
symbol clz = Arithmetic.clz
symbol ctz = Arithmetic.ctz
symbol int_bits = Arithmetic.int_bits
symbol dup = Stack.dup
symbol drop = Stack.drop_op
symbol swap = Stack.swap
symbol over = Stack.over
symbol rot = Stack.rot
symbol nip = Stack.nip
symbol tuck = Stack.tuck
symbol two_dup = Stack.two_dup
symbol pick = Stack.pick
symbol roll = Stack.roll
