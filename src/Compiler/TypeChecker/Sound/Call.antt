-- ===== src/Compiler/TypeChecker/Sound/Call.antt =====
-- A call that checks runs safely: its stack meets the inputs of the word, and what the word leaves has
-- the type that the checker goes on with.
use cem.Prelude.{ℕ, String, false, some, ◌≡◌, sym, ◌∙◌, str_eq, subst, ap, arith}
use cem.Prelude.Dict.{lookup}
use cem.Compiler.Types.{
  SeqType, int, var, StackType, empty, cons, row_var, Effect, inputs, outputs, effects,
}
use cem.Compiler.Unification.Substitution.{Subst}
use cem.Compiler.TypeChecker.State.{
  Declarations, Cells, Checked, ok, continue, continue-eq-ok, Inferred,
}
use cem.Compiler.TypeChecker.Freshen.Renames.{freshen_effect-Renamed}
use cem.Compiler.TypeChecker.Apply.{lookup_word_effect, apply_effect, or_fail}
use cem.Compiler.TypeChecker.Apply.Rigid.{IsSimple, Fits, apply_effect-Fits}
use cem.Compiler.TypeChecker.Branches.{apply_word}
use cem.Compiler.TypeChecker.Ground.{Over, Concrete, Over-Simple}
use cem.Compiler.TypeChecker.Ground.Instance.{Names, instance_at, Admits, AdmitsType}
use cem.Compiler.TypeChecker.Sound.{Ending, finished, wrong, out_of_fuel, ending}
use cem.Builtins.{Builtin, signature, symbol}
use cem.Builtins.Semantics.{Valuation, HasStackType}
use cem.Builtins.Sound.{IsExact, symbol-keeps_signature}
use cem.Runtime.Stack.{Stack}

abbrev pub Safe : Valuation → StackType → Ending → Type 0
Safe ρ st (finished s) = HasStackType ρ st s
Safe ρ st wrong = ⊥
Safe ρ st out_of_fuel = Unit

-- A piece of code that has been checked from `st`: the checker is in the same word and goes on with a stack
-- type over "rest", and the code takes every stack of the type `st` to one of the new type.
pub record IsSafe (before after : Cells) (st st' : StackType) (run : Stack → Ending) : Type 1 where
  pub same_word : after.current_word ≡ before.current_word
  pub over : Over "rest" st'
  pub safe : (ρ : Valuation) (s : Stack) → HasStackType ρ st s → Safe ρ st' (run s)

pub ok-parts :
    {a b : Inferred} {c d : Cells} → Checked.ok a c ≡ ok b d → (a.stack ≡ b.stack) × (c ≡ d)
ok-parts h = ground arith

module _ (checker : Declarations) (fuel : ℕ) (name : String) (e : Effect) where
  -- The chain of `apply_word` for a word with a simple effect.
  apply_word-Fits :
      (st : StackType) (cells : Cells) {r : Inferred} {cells' : Cells}
      → lookup_word_effect checker name ≡ some e
      → str_eq name "strand.spawn" ≡ false
      → IsSimple e
      → Over "rest" st
      → apply_word checker fuel name st cells ≡ ok r cells'
      → (names : Names) × (t : Subst) × Fits names e st r.stack t
        × (cells'.current_word ≡ cells.current_word)
  unfolding apply_word or_fail
  apply_word-Fits st cells {r} {cells'} found plain simple over h =
      let (names, e', n, fresh, renamed) =
        freshen_effect-Renamed e cells simple.simple_inputs simple.simple_outputs in
      let counted : Cells = record cells { fresh_counter = n } in
      let rest : continue {A = StackType × Subst} (apply_effect fuel e' st name counted)
            (λ p cells. ok (record { stack = p.0; subst = p.1; effects = effects e' }) cells)
          ≡ ok r cells' =
        rw (found, fresh, plain) at h in
      let (p, middle, ran, last) = continue-eq-ok (apply_effect fuel e' st name counted) _ rest in
      let (same_cells, fits) =
        apply_effect-Fits names e e' simple renamed fuel st name counted {st' = p.0} {t = p.1} over
          ran in
      let (same_stack, same_end) = ok-parts last in
      (
        names,
        p.1,
        subst (λ st'. Fits names e st st' p.1) same_stack fits,
        ap (λ c. c.current_word) (sym same_end ∙ same_cells),
      )

  -- A word whose effect is simple, and whose code keeps it at every valuation.
  pub call-IsSafe :
      (run : Stack → Ending) (st : StackType) (cells : Cells) {r : Inferred} {cells' : Cells}
      → lookup_word_effect checker name ≡ some e
      → str_eq name "strand.spawn" ≡ false
      → IsSimple e
      → ((ρ : Valuation) (s : Stack) → HasStackType ρ (inputs e) s → Safe ρ (outputs e) (run s))
      → Over "rest" st
      → apply_word checker fuel name st cells ≡ ok r cells'
      → IsSafe cells cells' st r.stack run
  call-IsSafe run st cells {r} {cells'} found plain simple keeps over h =
      let (names, t, fits, word) = apply_word-Fits st cells found plain simple over h in
      record {
        same_word = word;
        over = fits.stays_over;
        safe = λ ρ s typed.
            weaken ρ names t fits (run s)
              (keeps (instance_at names t ρ) s (fits.meets_inputs ρ s typed));
      }
    where
      weaken :
          (ρ : Valuation) (names : Names) (t : Subst)
          → Fits names e st r.stack t
          → (end : Ending) → Safe (instance_at names t ρ) (outputs e) end
          → Safe ρ r.stack end
      weaken ρ names t fits (finished s) h = fits.meets_outputs ρ s h
      weaken ρ names t fits wrong h = h
      weaken ρ names t fits out_of_fuel h = h

-- A built-in word.
pub symbol-Safe :
    (w : Builtin) (ρ : Valuation) (s : Stack)
    → IsExact w
    → HasStackType ρ (inputs (signature w)) s
    → Safe ρ (outputs (signature w)) (ending (symbol w s))
symbol-Safe w ρ s exact h =
    let (s', ran, typed) = symbol-keeps_signature ρ w s exact h in rw ran typed

-- A word of the program with concrete inputs and outputs over "rest".
module _ (P R : String → Type 0) where
  base_admitted : (st : StackType) → Over "rest" st → Admits P R st → R "rest"
  base_admitted empty h a = absurd h
  base_admitted (row_var n) h a = subst R h a
  base_admitted (cons rest top) h a = base_admitted rest h.0 a.0

  type_admitted : (ty : SeqType) → Concrete ty → AdmitsType P R ty
  type_admitted (var _) h = absurd h
  type_admitted int h = h
  type_admitted _ h = h

  over_admitted : (st : StackType) → Over "rest" st → R "rest" → Admits P R st
  over_admitted empty h r = h
  over_admitted (row_var n) h r = subst R (sym h) r
  over_admitted (cons rest top) h r = (over_admitted rest h.0 r, type_admitted top h.1)

abbrev pub IsMonomorphic : Effect → Type 0
IsMonomorphic e = Over "rest" (inputs e) × Over "rest" (outputs e)

pub IsMonomorphic-IsSimple : (e : Effect) → IsMonomorphic e → IsSimple e
IsMonomorphic-IsSimple e h = record {
  simple_inputs = Over-Simple "rest" (inputs e) h.0;
  simple_outputs = Over-Simple "rest" (outputs e) h.1;
  covers = λ P R a. over_admitted P R (outputs e) h.1 (base_admitted P R (inputs e) h.0 a);
}

-- Every word of the environment has concrete types, and its code keeps them.
pub record IsSafeCall (checker : Declarations) (call : String → Stack → Ending) : Type 1 where
  pub monomorphic :
      (name : String) (e : Effect) → lookup name checker.env ≡ some e → IsMonomorphic e
  pub keeps :
      (name : String) (e : Effect)
      → lookup name checker.env ≡ some e
      → (ρ : Valuation) (s : Stack) → HasStackType ρ (inputs e) s
      → Safe ρ (outputs e) (call name s)
