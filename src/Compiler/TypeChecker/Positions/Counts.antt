-- ===== src/Compiler/TypeChecker/Positions/Counts.antt =====
-- The counting loops of the type checker count the types above the base of a stack type.
use cem.Prelude.{ℕ, ◌+◌, ◌≡◌, arith}
use cem.Compiler.Types.{StackType, empty, cons, row_var, depth}
use cem.Compiler.TypeChecker.Positions.{count_from, count_concrete_types}

count_from-eq-add : (n : ℕ) (st : StackType) → count_from n st ≡ n + depth st
unfolding count_from depth
count_from-eq-add n empty = omega arith
count_from-eq-add n (row_var _) = omega arith
count_from-eq-add n (cons rest top) = omega (arith, count_from-eq-add (n + 1) rest)

pub count_concrete_types-eq-depth : (st : StackType) → count_concrete_types st ≡ depth st
unfolding count_concrete_types
count_concrete_types-eq-depth st = omega (arith, count_from-eq-add 0 st)
