-- ===== src/Compiler/TypeChecker/Positions/Literal.antt =====
-- `n pick` and `n roll` in the checker, beside the runtime functions of pick and roll.
use cem.Prelude.{
  ℕ, zero, suc, ◌+◌, ◌==◌, ◌^◌, ◌<◌, ◌≤◌, String, true, false, some, List, [], ◌∷◌, ◌++◌, length,
  get_elem?, take, drop, leb, ◌≡◌, refl, subst, arith,
}
use cem.Compiler.Types.{SeqType, StackType, empty, cons, row_var, push, depth}
use cem.Compiler.Unification.Substitution.{no_subst}
use cem.Compiler.TypeChecker.State.{Cells, ok}
use cem.Compiler.TypeChecker.Positions.{
  type_at, get_type_at_position, rebuild, rotate, rotate_type_to_top, handle_literal_pick,
  handle_literal_roll,
}
use cem.Builtins.Semantics.{Valuation, HasType, HasStackType}
use cem.Runtime.Value.{Value, int}
use cem.Runtime.Word.{is_negative}
use cem.Runtime.Stack.{Stack, done, pick, roll}
use cem.Runtime.Stack.Roll.{roll_lem}

module _ (ρ : Valuation) where
  type_at-HasType :
      (stack : StackType) (s : Stack) (pos d n : ℕ) (op : String) (cells : Cells)
      → n ≡ pos + d
      → d < depth stack
      → HasStackType ρ stack s
      → (ty : SeqType) × (x : Value) × (d < length s)
        × (type_at stack pos n op cells ≡ ok ty cells)
        × (get_elem? s d ≡ some x)
        × HasType ρ ty x
  unfolding type_at depth
  type_at-HasType empty s pos d n op cells e within h = absurd (omega arith)
  type_at-HasType (row_var _) s pos d n op cells e within h = absurd (omega arith)
  type_at-HasType (cons rest top) [] pos d n op cells e within h = absurd h
  type_at-HasType (cons rest top) (x ∷ s) pos zero n op cells e within h =
      let here : (pos == n) ≡ true = ground arith in (top, x, omega arith, rw here refl, refl, h.1)
  type_at-HasType (cons rest top) (x ∷ s) pos (suc d) n op cells e within h =
      let further : (pos == n) ≡ false = ground arith in
      let (ty, y, inside, at, is, typed) =
        type_at-HasType rest s (pos + 1) d n op cells (omega arith) (omega arith) h.0 in
      (ty, y, omega arith, rw further at, is, typed)

  -- For a literal n below the number of types that the checker knows, on a stack of values of the stack
  -- type: the checker gives a type to `n pick`, `pick` succeeds, and what it leaves has that type.
  pub handle_literal_pick-pick :
      (stack : StackType) (s : Stack) (n : ℕ) (cells : Cells)
      → n < 2 ^ 63
      → n < depth stack
      → HasStackType ρ stack s
      → (result : StackType) × (t : Stack) × (handle_literal_pick n stack cells
          ≡ ok (result, no_subst) cells)
        × (pick (int n ∷ s) ≡ done t)
        × HasStackType ρ result t
  unfolding handle_literal_pick get_type_at_position push pick
  handle_literal_pick-pick stack s n cells small within h =
      let (ty, x, inside, at, is, typed) =
        type_at-HasType stack s 0 n n "pick" cells (omega arith) within h in
      let positive : is_negative n ≡ false = ground arith in
      let deep : leb (length s) n ≡ false = ground arith in
      (cons stack ty, x ∷ s, rw (positive, at) refl, rw (positive, deep, is) refl, (h, typed))

  -- `rebuild` with values
  abbrev put_back : Stack → List Value → Stack
  put_back s [] = s
  put_back s (x ∷ above) = put_back (x ∷ s) above

  abbrev AllTyped : List SeqType → List Value → Type 0
  AllTyped [] [] = Unit
  AllTyped [] (x ∷ above) = ⊥
  AllTyped (ty ∷ types_above) [] = ⊥
  AllTyped (ty ∷ types_above) (x ∷ above) = HasType ρ ty x × AllTyped types_above above

  rebuild-HasStackType :
      (stack : StackType) (s : Stack) (types_above : List SeqType) (above : List Value)
      → HasStackType ρ stack s
      → AllTyped types_above above
      → HasStackType ρ (rebuild stack types_above) (put_back s above)
  unfolding rebuild push
  rebuild-HasStackType stack s [] [] h all = h
  rebuild-HasStackType stack s [] (x ∷ above) h all = absurd all
  rebuild-HasStackType stack s (ty ∷ types_above) [] h all = absurd all
  rebuild-HasStackType stack s (ty ∷ types_above) (x ∷ above) h all =
      rebuild-HasStackType (cons stack ty) (x ∷ s) types_above above (h, all.0) all.1

  rotate-HasStackType :
      (stack : StackType) (s : Stack) (types_above : List SeqType) (above : List Value)
      (pos d n : ℕ) (cells : Cells)
      → n ≡ pos + d
      → d < depth stack
      → HasStackType ρ stack s
      → AllTyped types_above above
      → (result : StackType) × (x : Value) × (d < length s)
        × (rotate stack types_above pos n cells ≡ ok result cells)
        × (get_elem? s d ≡ some x)
        × HasStackType ρ result (x ∷ put_back (take d s ++ drop (suc d) s) above)
  unfolding rotate depth push
  rotate-HasStackType empty s types_above above pos d n cells e within h all = absurd (omega arith)
  rotate-HasStackType (row_var _) s types_above above pos d n cells e within h all =
      absurd (omega arith)
  rotate-HasStackType (cons rest top) [] types_above above pos d n cells e within h all = absurd h
  rotate-HasStackType (cons rest top) (x ∷ s) types_above above pos zero n cells e within h all =
      let here : (pos == n) ≡ true = ground arith in
      (
        cons (rebuild rest types_above) top,
        x,
        omega arith,
        rw here refl,
        refl,
        (rebuild-HasStackType rest s types_above above h.0 all, h.1),
      )
  rotate-HasStackType (cons rest top) (x ∷ s) types_above above pos (suc d) n cells e within h all =
      let further : (pos == n) ≡ false = ground arith in
      let (result, y, inside, at, is, typed) =
        rotate-HasStackType rest s (top ∷ types_above) (x ∷ above) (pos + 1) d n cells (omega arith)
          (omega arith) h.0 (h.1, all) in
      (result, y, omega arith, rw further at, is, typed)

  -- For a literal n below the number of types that the checker knows, on a stack of at most 2 ^ 63 values
  -- of the stack type: the checker gives a type to `n roll`, `roll` succeeds, and what it leaves has that type.
  pub handle_literal_roll-roll :
      (stack : StackType) (s : Stack) (n : ℕ) (cells : Cells)
      → n < 2 ^ 63
      → n < depth stack
      → length s ≤ 2 ^ 63
      → HasStackType ρ stack s
      → (result : StackType) × (t : Stack) × (handle_literal_roll n stack cells
          ≡ ok (result, no_subst) cells)
        × (roll (int n ∷ s) ≡ done t)
        × HasStackType ρ result t
  unfolding handle_literal_roll rotate_type_to_top roll
  handle_literal_roll-roll stack s zero cells small within few h = (stack, s, refl, refl, h)
  handle_literal_roll-roll stack s (suc n) cells small within few h =
      let (result, x, inside, at, is, typed) =
        rotate-HasStackType stack s [] [] 0 (suc n) (suc n) cells (omega arith) within h tt in
      let (y, found, rolls, _) = roll_lem (suc n) s few inside in
      let same : y ≡ x = cc in
      let positive : is_negative (suc n) ≡ false = ground arith in
      let moves : (suc n == 0) ≡ false = ground arith in
      (
        result,
        x ∷ take (suc n) s ++ drop (suc (suc n)) s,
        rw (positive, moves, at) refl,
        subst (λ y. roll (int (suc n) ∷ s) ≡ done (y ∷ take (suc n) s ++ drop (suc (suc n)) s)) same
            rolls,
        typed,
      )
