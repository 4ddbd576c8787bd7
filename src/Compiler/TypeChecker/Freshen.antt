-- ===== src/Compiler/TypeChecker/Freshen.antt =====
-- crates/compiler/src/typechecker.rs: fresh variable names, and the freshening of an effect. The two
-- maps from old names to new ones are a state beside the counter, and the effect's inputs,
-- outputs and side effects are walked in this order.
pub mod Renames
use Prim.Native.String
use cem.Prelude.{ℕ, ◌+◌, String, Option, none, some, [], ◌∷◌}
use cem.Prelude.Dict.{Dict, lookup, insert}
use cem.Prelude.Decimal.{decimal}
use cem.Compiler.Types.{
  SeqType, int, float, bool, string, symbol, channel, quotation, closure, union, var, StackType,
  empty, cons, row_var, Effect, effect, pure_effect, SideEffect, yields, SideEffects, no_effects,
  and_effect, Captures, no_captures, and_capture, inputs, outputs, effects,
}
use cem.Compiler.TypeChecker.State.{Cells, M, ok, Checked}

unfoldable pub fresh_name : String → ℕ → String
unfolding decimal
fresh_name prefix n = String.◌++◌ prefix (String.◌++◌ "$" (decimal n))

unfoldable pub fresh_var : String → M String
unfolding fresh_name
fresh_var prefix cells =
    ok (fresh_name prefix cells.fresh_counter)
      (record cells { fresh_counter = cells.fresh_counter + 1 })

-- `type_map`, `row_map` and the counter.
pub record Renaming : Type 0 where
  pub type_map : Dict String
  pub row_map : Dict String
  pub counter : ℕ

-- `type_map.entry(name.clone()).or_insert_with(|| self.fresh_var(name))`
unfoldable pub type_entry : String → Option String → Renaming → String × Renaming
type_entry name (some old) r = (old, r)
type_entry name none r =
    let fresh = fresh_name name r.counter in
    (fresh, record r { type_map = insert name fresh r.type_map; counter = r.counter + 1 })

unfoldable pub row_entry : String → Option String → Renaming → String × Renaming
row_entry name (some old) r = (old, r)
row_entry name none r =
    let fresh = fresh_name name r.counter in
    (fresh, record r { row_map = insert name fresh r.row_map; counter = r.counter + 1 })

unfoldable mutual
  unfolding type_entry row_entry pure_effect

  pub freshen_stack : StackType → Renaming → StackType × Renaming
  freshen_stack empty r = (empty, r)
  freshen_stack (row_var name) r =
      let (fresh, r') = row_entry name (lookup name r.row_map) r in (row_var fresh, r')
  freshen_stack (cons rest top) r =
      let (fresh_rest, r') = freshen_stack rest r in
      let (fresh_top, r'') = freshen_type top r' in (cons fresh_rest fresh_top, r'')

  pub freshen_type : SeqType → Renaming → SeqType × Renaming
  freshen_type (var name) r =
      let (fresh, r') = type_entry name (lookup name r.type_map) r in (var fresh, r')
  freshen_type (quotation e) r = let (fresh, r') = freshen_pure e r in (quotation fresh, r')
  freshen_type (closure e c) r =
      let (fresh, r') = freshen_pure e r in
      let (fresh_captures, r'') = freshen_captures c r' in (closure fresh fresh_captures, r'')
  freshen_type int r = (int, r)
  freshen_type float r = (float, r)
  freshen_type bool r = (bool, r)
  freshen_type string r = (string, r)
  freshen_type symbol r = (symbol, r)
  freshen_type channel r = (channel, r)
  freshen_type (union name) r = (union name, r)

  -- The effect inside a quotation or a closure: its side effects are dropped.
  pub freshen_pure : Effect → Renaming → Effect × Renaming
  freshen_pure (effect i o _) r =
      let (fresh_in, r') = freshen_stack i r in
      let (fresh_out, r'') = freshen_stack o r' in (pure_effect fresh_in fresh_out, r'')

  pub freshen_captures : Captures → Renaming → Captures × Renaming
  freshen_captures no_captures r = (no_captures, r)
  freshen_captures (and_capture t c) r =
      let (fresh, r') = freshen_type t r in
      let (fresh_rest, r'') = freshen_captures c r' in (and_capture fresh fresh_rest, r'')

unfoldable pub freshen_side_effect : SideEffect → Renaming → SideEffect × Renaming
freshen_side_effect (yields ty) r = let (fresh, r') = freshen_type ty r in (yields fresh, r')

freshen_side_effects : SideEffects → Renaming → SideEffects × Renaming
unfolding freshen_side_effect
freshen_side_effects no_effects r = (no_effects, r)
freshen_side_effects (and_effect e es) r =
    let (fresh, r') = freshen_side_effect e r in
    let (fresh_rest, r'') = freshen_side_effects es r' in (and_effect fresh fresh_rest, r'')

unfoldable pub freshen_effect_from : Effect → Renaming → Effect × Renaming
unfolding freshen_side_effects
freshen_effect_from (effect i o es) r =
    let (fresh_in, r') = freshen_stack i r in
    let (fresh_out, r'') = freshen_stack o r' in
    let (fresh_effects, r''') = freshen_side_effects es r'' in
    (effect fresh_in fresh_out fresh_effects, r''')

unfoldable pub freshen_effect : Effect → M Effect
unfolding freshen_effect_from
freshen_effect e cells =
    let start : Renaming = record { type_map = []; row_map = []; counter = cells.fresh_counter } in
    let (fresh, renaming) = freshen_effect_from e start in
    ok fresh (record cells { fresh_counter = renaming.counter })
