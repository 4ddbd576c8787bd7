-- ===== src/Compiler/TypeChecker/Sound/If.antt =====
-- An `if` is safe when its branches are and neither is taken to diverge.
use cem.Prelude.{
  ℕ, zero, suc, String, Bool, Bool-cases, true, false, some, ◌≡◌, sym, ◌∙◌, ap, ap₂, inl, inr,
  subst, arith, [], ◌∷◌,
}
use cem.Compiler.Types.{SeqType, bool, StackType, empty, cons, row_var, singleton, push}
use cem.Compiler.Types.Equality.{eq_stack}
use cem.Compiler.CallGraph.{Statements, ElseBranch}
use cem.Compiler.Unification.Substitution.{Subst, no_subst, apply_stack, compose}
use cem.Compiler.Unification.Unify
use cem.Compiler.Unification.Unify.{unify_stacks, ok-injective}
use cem.Compiler.Unification.Compose.{FreshStack, apply_stack-fresh}
use cem.Compiler.Unification.Fresh.{FreshStack-compose}
use cem.Compiler.Unification.Steps.{unify_types-step}
use cem.Compiler.TypeChecker.State.{
  Declarations, Cells, M, ok, continue-eq-ok, Inferred, condition_not_bool, branches_mismatch,
}
use cem.Compiler.TypeChecker.Positions.{pop_type}
use cem.Compiler.TypeChecker.Apply.{unified}
use cem.Compiler.TypeChecker.Apply.Rigid.{applied, unified-eq-ok}
use cem.Compiler.TypeChecker.Branches.{
  restore_aux, check_aux, join_branches, infer_branches, infer_if, is_divergent_branch,
  is_divergent_else,
}
use cem.Compiler.TypeChecker.Ground.{Over, Concrete, SimpleType-FlatType, Concrete-SimpleType}
use cem.Compiler.TypeChecker.Ground.Agree.{
  concrete_step, no_subst-FreshStack, unify_stacks-cons, unify_stacks-Over,
}
use cem.Compiler.TypeChecker.Sound.{Ending, choose}
use cem.Compiler.TypeChecker.Sound.Call.{Safe, IsSafe, ok-parts}
use cem.Builtins.Semantics.{Valuation, HasStackType, bool_value}
use cem.Runtime.Value.{Value}
use cem.Runtime.Stack.{Stack}

-- The condition is a Bool, and its test binds nothing.
condition_lem :
    (fuel : ℕ) (cond : SeqType) {t : Subst}
    → Concrete cond
    → unify_stacks fuel (cons empty bool) (cons empty cond) ≡ Unify.ok t
    → (bool ≡ cond) × (t ≡ compose no_subst no_subst)
unfolding unify_stacks apply_stack
condition_lem zero cond c h = absurd (cc)
condition_lem (suc zero) cond c h =
    let (s_top, s_rest, tops, rests, made) = unify_stacks-cons zero empty empty bool cond h in
    absurd (cc)
condition_lem (suc (suc fuel)) cond c h =
    let (s_top, s_rest, tops, rests, made) = unify_stacks-cons (suc fuel) empty empty bool cond h in
    let (e, d) = concrete_step tt c (
      unify_types-step (unify_stacks (suc fuel)) bool cond tt
        (SimpleType-FlatType cond (Concrete-SimpleType cond c)) tops) in
    let r : no_subst ≡ s_rest = ok-injective rests in (e, made ∙ ap₂ compose d (sym r))

module _ (checker : Declarations) (fuel : ℕ) where
  check_aux-same_word :
      (a b : StackType) (cells : Cells) {u : Unit {0}} {cells' : Cells}
      → check_aux checker fuel false false a b cells ≡ ok u cells'
      → cells'.current_word ≡ cells.current_word
  unfolding check_aux restore_aux
  check_aux-same_word a b cells {u} {cells'} h = elim (Bool-cases (eq_stack a b)) [
    | inl same ↦
        let h' : ok tt (record cells { current_aux_stack = a }) ≡ ok u cells' = rw same at h in
        ground arith
    | inr different ↦ absurd (ground (arith, different))
  ]

  join_branches-Over :
      (s1 s2 : StackType) (cells : Cells) {p : StackType × Subst} {cells' : Cells}
      → Over "rest" s1
      → Over "rest" s2
      → join_branches checker fuel false false s1 s2 cells ≡ ok p cells'
      → (p.0 ≡ s1) × (s1 ≡ s2) × (cells' ≡ cells)
  unfolding join_branches
  join_branches-Over s1 s2 cells {p} h1 h2 h =
      let (u, result, same) =
        applied (branches_mismatch s1 s2) (unify_stacks fuel s1 s2) s1 cells {st' = p.0} {t = p.1}
          h in
      let (agree, fresh) = unify_stacks-Over "rest" fuel s1 s2 h1 h2 u in
      (result ∙ apply_stack-fresh p.1 s1 fresh, agree, same)

-- A branch, checked in the word `current` from any stack over "rest".
abbrev pub IsSafeBranch : String → (StackType → M Inferred) → (Stack → Ending) → Type 1
IsSafeBranch current infer run =
    (st : StackType) (cells : Cells) (r : Inferred) (cells' : Cells)
    → cells.current_word ≡ some current
    → Over "rest" st
    → infer st cells ≡ ok r cells'
    → IsSafe cells cells' st r.stack run

choose-Safe :
    (ρ : Valuation) (below st' : StackType) (run_then run_else : Stack → Ending)
    → ((s : Stack) → HasStackType ρ below s → Safe ρ st' (run_then s))
    → ((s : Stack) → HasStackType ρ below s → Safe ρ st' (run_else s))
    → (s : Stack) → HasStackType ρ (cons below bool) s
    → Safe ρ st' (choose run_then run_else s)
choose-Safe ρ below st' run_then run_else ht he [] h = h
choose-Safe ρ below st' run_then run_else ht he (x ∷ s) h =
    let (b, e) = bool_value x h.1 in rw e (pick b)
  where
    pick : (b : Bool) → Safe ρ st' (choose run_then run_else (Value.bool b ∷ s))
    pick true = ht s h.0
    pick false = he s h.0

module _ (checker : Declarations) (fuel : ℕ) (current : String) where
  infer_branches-IsSafe :
      (infer_then infer_else : StackType → M Inferred) (run_then run_else : Stack → Ending)
      (cond_subst : Subst) (below : StackType) (cells : Cells) {r : Inferred} {cells' : Cells}
      → IsSafeBranch current infer_then run_then
      → IsSafeBranch current infer_else run_else
      → cells.current_word ≡ some current
      → Over "rest" below
      → infer_branches checker fuel false false infer_then infer_else cond_subst below cells
        ≡ ok r cells'
      → IsSafe cells cells' (cons below bool) r.stack (choose run_then run_else)
  unfolding infer_branches restore_aux
  infer_branches-IsSafe infer_then infer_else run_then run_else cond_subst below cells {r} then_safe
        else_safe word over h =
      let (then_result, c1, then_ran, h1) = continue-eq-ok (infer_then below cells) _ h in
      let then_ok = then_safe below cells then_result c1 word over then_ran in
      let restored : Cells = record c1 { current_aux_stack = cells.current_aux_stack } in
      let (else_result, c2, else_ran, h2) = continue-eq-ok (infer_else below restored) _ h1 in
      let else_ok =
        else_safe below restored else_result c2 (then_ok.same_word ∙ word) over else_ran in
      let (u, c3, aux_ran, h3) =
        continue-eq-ok
          (check_aux checker fuel false false c1.current_aux_stack c2.current_aux_stack c2) _ h2 in
      let aux_word =
        check_aux-same_word checker fuel c1.current_aux_stack c2.current_aux_stack c2 aux_ran in
      let (p, c4, joined, h4) =
        continue-eq-ok
          (join_branches checker fuel false false then_result.stack else_result.stack c3) _ h3 in
      let (result, agree, same) =
        join_branches-Over checker fuel then_result.stack else_result.stack c3 {p = p} then_ok.over
          else_ok.over joined in
      let (same_stack, same_end) = ok-parts h4 in
      let is_then : r.stack ≡ then_result.stack = sym same_stack ∙ result in
      record {
        same_word =
            ap (λ c. c.current_word) (sym same_end ∙ same)
            ∙ aux_word
            ∙ else_ok.same_word
            ∙ then_ok.same_word;
        over = subst (Over "rest") (sym is_then) then_ok.over;
        safe = λ ρ s typed.
            subst (λ st. Safe ρ st (choose run_then run_else s)) (sym is_then)
              (choose-Safe ρ below then_result.stack run_then run_else (then_ok.safe ρ)
                (λ s typed.
                  subst (λ st. Safe ρ st (run_else s)) (sym agree) (else_ok.safe ρ s typed))
                s typed);
      }

  -- `infer_if` where the checker takes neither branch to diverge.
  pub infer_if-IsSafe :
      (then_branch : Statements) (else_branch : ElseBranch)
      (infer_then infer_else : StackType → M Inferred) (run_then run_else : Stack → Ending)
      (st : StackType) (cells : Cells) {r : Inferred} {cells' : Cells}
      → IsSafeBranch current infer_then run_then
      → IsSafeBranch current infer_else run_else
      → is_divergent_branch checker then_branch cells ≡ false
      → is_divergent_else checker else_branch cells ≡ false
      → cells.current_word ≡ some current
      → Over "rest" st
      → infer_if checker fuel then_branch else_branch infer_then infer_else st cells ≡ ok r cells'
      → IsSafe cells cells' st r.stack (choose run_then run_else)
  unfolding infer_if pop_type singleton push
  infer_if-IsSafe then_branch else_branch infer_then infer_else run_then run_else empty cells
        then_safe else_safe div_then div_else word over h =
      absurd over
  infer_if-IsSafe then_branch else_branch infer_then infer_else run_then run_else (row_var n) cells
        then_safe else_safe div_then div_else word over h =
      absurd (cc)
  infer_if-IsSafe then_branch else_branch infer_then infer_else run_then run_else (cons below cond)
        cells {r} {cells'} then_safe else_safe div_then div_else word over h =
      let (t, middle, tested, h1) =
        continue-eq-ok
          (unified condition_not_bool (unify_stacks fuel (cons empty bool) (cons empty cond)) cells)
          _ h in
      let (u, same) =
        unified-eq-ok condition_not_bool (unify_stacks fuel (cons empty bool) (cons empty cond))
          cells tested in
      let (is_bool, made) = condition_lem fuel cond over.1 u in
      let unbound : apply_stack t below ≡ below = apply_stack-fresh t below (
        subst (λ s. FreshStack s below) (sym made)
          (FreshStack-compose no_subst no_subst below (no_subst-FreshStack below)
            (no_subst-FreshStack below))) in
      let branches : infer_branches checker fuel false false infer_then infer_else t below cells
          ≡ ok r cells' =
        rw (same, div_then, div_else, unbound) at h1 in
      subst (λ ty. IsSafe cells cells' (cons below ty) r.stack (choose run_then run_else)) is_bool
        (infer_branches-IsSafe infer_then infer_else run_then run_else t below cells then_safe
          else_safe word over.0 branches)
