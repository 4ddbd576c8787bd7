-- ===== src/Runtime/Arithmetic.antt =====
-- crates/runtime/src/arithmetic.rs: one function for each exported operation. An operation takes its
-- operands from the top, the second operand first, and panics where they are not integers.
pub mod Laws
use cem.Prelude.{
  ℕ, ◌-◌, Bool, true, false, not, ◌&&◌, ◌||◌, List, [], ◌∷◌, String, ltb, leb, ◌==◌, Option, none,
  some, if◌then◌else◌,
}
use cem.Runtime.Value.{Value, int, bool}
use cem.Runtime.Word.{
  is_negative, wrapping_add, wrapping_sub, wrapping_mul, wrapping_div, wrapping_rem, lt_i64,
  band_i64, bor_i64, bxor_i64, bnot_i64, as_u32, checked_shl, checked_shr, count_ones,
  leading_zeros, trailing_zeros,
}
use cem.Runtime.Stack.{Stack, Run, done, panicked, undefined, pop, pop_two, push}

-- The match on `(Value::Int(a), Value::Int(b))` that the binary operations share.
abbrev both_ints : String → (ℕ → ℕ → Stack → Stack) → Option (Stack × Value × Value) → Run Stack
both_ints name f none = undefined
both_ints name f (some (rest, int a, int b)) = done (f a b rest)
both_ints name f (some _) = panicked name

unfoldable pub binary : String → (ℕ → ℕ → Stack → Stack) → Stack → Run Stack
unfolding pop_two
binary name f stack = both_ints name f (pop_two stack)

abbrev one_int : String → (ℕ → Stack → Stack) → Option (Stack × Value) → Run Stack
one_int name f none = undefined
one_int name f (some (rest, int a)) = done (f a rest)
one_int name f (some _) = panicked name

unfoldable pub unary : String → (ℕ → Stack → Stack) → Stack → Run Stack
unfolding pop
unary name f stack = one_int name f (pop stack)

abbrev flag_int : Bool → ℕ
flag_int b = if b then 1 else 0

unfoldable pub push_int : Stack → ℕ → Run Stack
push_int stack value = done (int value ∷ stack)

unfoldable pub push_bool : Stack → Bool → Run Stack
push_bool stack value = done (bool value ∷ stack)

unfoldable pub add : Stack → Run Stack
unfolding binary
add = binary "add" (λ a b rest. int (wrapping_add a b) ∷ rest)

unfoldable pub subtract : Stack → Run Stack
unfolding binary
subtract = binary "subtract" (λ a b rest. int (wrapping_sub a b) ∷ rest)

unfoldable pub multiply : Stack → Run Stack
unfolding binary
multiply = binary "multiply" (λ a b rest. int (wrapping_mul a b) ∷ rest)

unfoldable pub divide : Stack → Run Stack
unfolding binary
divide = binary "divide" (λ a b rest.
    if b == 0 then bool false ∷ int 0 ∷ rest else bool true ∷ int (wrapping_div a b) ∷ rest)

unfoldable pub modulo : Stack → Run Stack
unfolding binary
modulo = binary "modulo" (λ a b rest.
    if b == 0 then bool false ∷ int 0 ∷ rest else bool true ∷ int (wrapping_rem a b) ∷ rest)

unfoldable pub eq : Stack → Run Stack
unfolding binary
eq = binary "=" (λ a b rest. bool (a == b) ∷ rest)

unfoldable pub lt : Stack → Run Stack
unfolding binary
lt = binary "<" (λ a b rest. bool (lt_i64 a b) ∷ rest)

unfoldable pub gt : Stack → Run Stack
unfolding binary
gt = binary ">" (λ a b rest. bool (lt_i64 b a) ∷ rest)

unfoldable pub lte : Stack → Run Stack
unfolding binary
lte = binary "<=" (λ a b rest. bool (not (lt_i64 b a)) ∷ rest)

unfoldable pub gte : Stack → Run Stack
unfolding binary
gte = binary ">=" (λ a b rest. bool (not (lt_i64 a b)) ∷ rest)

unfoldable pub neq : Stack → Run Stack
unfolding binary
neq = binary "<>" (λ a b rest. bool (not (a == b)) ∷ rest)

unfoldable pub logical_and : Stack → Run Stack
unfolding binary
logical_and = binary "and" (λ a b rest. int (flag_int (not (a == 0) && not (b == 0))) ∷ rest)

unfoldable pub logical_or : Stack → Run Stack
unfolding binary
logical_or = binary "or" (λ a b rest. int (flag_int (not (a == 0) || not (b == 0))) ∷ rest)

unfoldable pub logical_not : Stack → Run Stack
unfolding unary
logical_not = unary "not" (λ a rest. int (flag_int (a == 0)) ∷ rest)

unfoldable pub band : Stack → Run Stack
unfolding binary
band = binary "band" (λ a b rest. int (band_i64 a b) ∷ rest)

unfoldable pub bor : Stack → Run Stack
unfolding binary
bor = binary "bor" (λ a b rest. int (bor_i64 a b) ∷ rest)

unfoldable pub bxor : Stack → Run Stack
unfolding binary
bxor = binary "bxor" (λ a b rest. int (bxor_i64 a b) ∷ rest)

unfoldable pub bnot : Stack → Run Stack
unfolding unary
bnot = unary "bnot" (λ a rest. int (bnot_i64 a) ∷ rest)

-- A negative count gives 0; any other is cut to 32 bits before the checked shift.
unfoldable pub shl : Stack → Run Stack
unfolding binary
shl = binary "shl" (λ v c rest. int (if is_negative c then 0 else checked_shl v (as_u32 c)) ∷ rest)

unfoldable pub shr : Stack → Run Stack
unfolding binary
shr = binary "shr" (λ v c rest. int (if is_negative c then 0 else checked_shr v (as_u32 c)) ∷ rest)

unfoldable pub popcount : Stack → Run Stack
unfolding unary
popcount = unary "popcount" (λ v rest. int (count_ones v) ∷ rest)

unfoldable pub clz : Stack → Run Stack
unfolding unary
clz = unary "clz" (λ v rest. int (leading_zeros v) ∷ rest)

unfoldable pub ctz : Stack → Run Stack
unfolding unary
ctz = unary "ctz" (λ v rest. int (trailing_zeros v) ∷ rest)

unfoldable pub int_bits : Stack → Run Stack
int_bits stack = done (int 64 ∷ stack)

unfoldable pub peek_int_value : Stack → Run ℕ
peek_int_value [] = undefined
peek_int_value (int i ∷ _) = done i
peek_int_value (_ ∷ _) = panicked "peek_int_value"

unfoldable pub peek_bool_value : Stack → Run Bool
peek_bool_value [] = undefined
peek_bool_value (bool b ∷ _) = done b
peek_bool_value (_ ∷ _) = panicked "peek_bool_value"

unfoldable pub pop_stack : Stack → Run Stack
pop_stack [] = undefined
pop_stack (_ ∷ rest) = done rest
