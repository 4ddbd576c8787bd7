-- ===== src/Compiler/TypeChecker/Positions.antt =====
-- crates/compiler/src/typechecker.rs: what the checker reads off a stack type: its top, its base,
-- the type at a position; and the literal forms of `pick` and `roll`.
pub mod Counts
pub mod Literal
use Prim.Native.String
use cem.Prelude.{
  ℕ, zero, suc, ◌+◌, ◌==◌, String, Bool, Option, none, some, List, [], ◌∷◌, str_eq, if◌then◌else◌,
}
use cem.Compiler.Types.{SeqType, int, float, bool, var, StackType, empty, cons, row_var, push}
use cem.Compiler.Unification.Substitution.{Subst, no_subst}
use cem.Compiler.TypeChecker.State.{
  Cells, M, ◌>>=◌, pure, fail, ok, err, Checked, pop_underflow, pop_row_variable, negative_index,
  position_underflow,
}
use cem.Compiler.TypeChecker.Freshen.{fresh_var}
use cem.Runtime.Word.{is_negative}

-- `stack_depth` and `count_concrete_types` are the same loop.
pub count_from : ℕ → StackType → ℕ
count_from n (cons rest _) = count_from (n + 1) rest
count_from n empty = n
count_from n (row_var _) = n

unfoldable pub stack_depth : StackType → ℕ
unfolding count_from
stack_depth stack = count_from 0 stack

unfoldable pub count_concrete_types : StackType → ℕ
unfolding count_from
count_concrete_types stack = count_from 0 stack

unfoldable pub get_row_var_base : StackType → Option String
get_row_var_base (cons rest _) = get_row_var_base rest
get_row_var_base (row_var name) = some name
get_row_var_base empty = none

unfoldable pub get_trivially_copyable_top : StackType → Option SeqType
get_trivially_copyable_top (cons _ int) = some int
get_trivially_copyable_top (cons _ float) = some float
get_trivially_copyable_top (cons _ bool) = some bool
get_trivially_copyable_top _ = none

-- `statement_top_types.insert(…)`
unfoldable pub insert_type :
    String → ℕ → SeqType → List ((String × ℕ) × SeqType) → List ((String × ℕ) × SeqType)
insert_type word i ty [] = ((word, i), ty) ∷ []
insert_type word i ty (((w, j), old) ∷ entries) =
    let rest = insert_type word i ty entries in
    if str_eq w word
    then (if i == j then ((word, i), ty) ∷ entries else ((w, j), old) ∷ rest)
    else ((w, j), old) ∷ rest

unfoldable pub capture_top : String → ℕ → Option SeqType → Cells → Cells
capture_top word i none cells = cells
capture_top word i (some ty) cells = record cells {
  statement_top_types = insert_type word i ty cells.statement_top_types;
}

unfoldable pub capture_statement_type : String → ℕ → StackType → Cells → Cells
unfolding capture_top insert_type get_trivially_copyable_top
capture_statement_type word i stack cells =
    capture_top word i (get_trivially_copyable_top stack) cells

unfoldable pub pop_type : StackType → String → M (StackType × SeqType)
pop_type (cons rest top) what = pure (rest, top)
pop_type empty what = fail (pop_underflow what)
pop_type (row_var _) what = fail (pop_row_variable what)

fresh_at : String → String → M SeqType
fresh_at op name = do fresh ← fresh_var (String.◌++◌ op (String.◌++◌ "_" name)); pure (var fresh)

-- The loop, from the position reached.
type_at : StackType → ℕ → ℕ → String → M SeqType
unfolding fresh_at
type_at (cons rest top) pos n op =
    let below = type_at rest (pos + 1) n op in if pos == n then pure top else below
type_at (row_var name) pos n op = fresh_at op name
type_at empty pos n op = fail (position_underflow op n pos)

unfoldable pub get_type_at_position : StackType → ℕ → String → M SeqType
unfolding type_at
get_type_at_position stack n op = type_at stack 0 n op

-- `for ty in types_above.into_iter().rev() { result = result.push(ty) }`: the Vec holds the types
-- from the top down, and here the last one comes first.
rebuild : StackType → List SeqType → StackType
unfolding push
rebuild result [] = result
rebuild result (ty ∷ types_above) = rebuild (push result ty) types_above

rotate : StackType → List SeqType → ℕ → ℕ → M StackType
unfolding rebuild fresh_at push
rotate (cons rest top) types_above pos n =
    let further = rotate rest (top ∷ types_above) (pos + 1) n in
    if pos == n then pure (push (rebuild rest types_above) top) else further
rotate (row_var name) types_above pos n = do
  fresh ← fresh_at "roll" name
  pure (push (rebuild (row_var name) types_above) fresh)
rotate empty types_above pos n = fail (position_underflow "roll" n pos)

unfoldable pub rotate_type_to_top : StackType → ℕ → M (StackType × Subst)
unfolding rotate
rotate_type_to_top stack n =
    if n == 0
    then pure (stack, no_subst)
    else (do result ← rotate stack [] 0 n; pure (result, no_subst))

unfoldable pub handle_literal_pick : ℕ → StackType → M (StackType × Subst)
unfolding get_type_at_position push
handle_literal_pick n stack =
    if is_negative n
    then fail (negative_index "pick")
    else (do type_at_n ← get_type_at_position stack n "pick"; pure (push stack type_at_n, no_subst))

unfoldable pub handle_literal_roll : ℕ → StackType → M (StackType × Subst)
unfolding rotate_type_to_top
handle_literal_roll n stack =
    if is_negative n then fail (negative_index "roll") else rotate_type_to_top stack n
