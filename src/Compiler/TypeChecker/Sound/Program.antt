-- ===== src/Compiler/TypeChecker/Sound/Program.antt =====
-- The words of a program of the fragment, from `check_program` to their runs.
use cem.Prelude.{
  ℕ, zero, suc, String, Bool-cases, Option, none, some, List, [], ◌∷◌, ◌≡◌, refl, sym, ◌∙◌, subst,
  ap, inl, inr, str_eq, eq_iff, arith,
}
use cem.Prelude.Dict.{Dict, lookup, insert, lookup-insert}
use cem.Compiler.Types.{Effect, inputs, outputs}
use cem.Compiler.CallGraph.{Statements}
use cem.Compiler.TypeChecker.State.{
  Declarations, UnionTypeInfo, Cells, ok, continue, continue-eq-ok,
}
use cem.Compiler.TypeChecker.Check.{WordDef, check_body, check_word, check_words, declared_effect}
use cem.Compiler.TypeChecker.CheckProgram.{
  Program, check_program, collect_signature, collect_signatures, register_unions,
  validate_effect_types, validate_union_field_types,
}
use cem.Compiler.TypeChecker.Sound.{IsCore, run_call}
use cem.Compiler.TypeChecker.Sound.Call.{Safe, IsSafeCall, IsMonomorphic}
use cem.Compiler.TypeChecker.Sound.Word.{check_body-Safe}
use cem.Builtins.Semantics.{Valuation, HasStackType}
use cem.Runtime.Stack.{Stack}

-- What the words of a program declare, over an environment; a later word hides an earlier one.
abbrev declare : String → Option Effect → Dict Effect → Dict Effect
declare name none env = env
declare name (some e) env = insert name e env

unfoldable pub signatures_of : List WordDef → Dict Effect → Dict Effect
signatures_of [] env = env
signatures_of (word ∷ words) env = signatures_of words (declare word.name word.effect env)

unfoldable pub bodies_of : List WordDef → Dict Statements → Dict Statements
bodies_of [] bodies = bodies
bodies_of (word ∷ words) bodies = bodies_of words (insert word.name word.body bodies)

-- What the checker knows when it checks the bodies.
abbrev pub declarations : Declarations → Program → Declarations
declarations checker program = record checker {
  env = signatures_of program.words checker.env;
  unions = register_unions program.unions checker.unions;
}

abbrev pub AllWords {ℓ} : (WordDef → Type ℓ) → List WordDef → Type ℓ
AllWords P [] = Unit
AllWords P (word ∷ words) = P word × AllWords P words

-- A word of the fragment: a concrete effect, and a body of the fragment.
pub record IsCoreWord (checker : Declarations) (word : WordDef) : Type 0 where
  pub effect : Effect
  pub is_declared : word.effect ≡ some effect
  pub monomorphic : IsMonomorphic effect
  pub core : IsCore checker word.name word.body

module _ (checker : Declarations) (fuel : ℕ) where
  record IsGood (name : String) (e : Effect) (body : Statements) : Type 0 where
    good_monomorphic : IsMonomorphic e
    good_core : IsCore checker name body
    before : Cells
    after : Cells
    checked : check_body checker fuel name e body before ≡ ok tt after

  -- Every signature of the environment belongs to a body that has been checked against it.
  abbrev AllGood : Dict Effect → Dict Statements → Type 0
  AllGood env bodies =
      (name : String) (e : Effect)
      → lookup name env ≡ some e
      → (body : Statements) × (lookup name bodies ≡ some body) × IsGood name e body

  insert-AllGood :
      (name : String) (e : Effect) (body : Statements) (env : Dict Effect)
      (bodies : Dict Statements)
      → IsGood name e body
      → AllGood env bodies
      → AllGood (insert name e env) (insert name body bodies)
  insert-AllGood name e body env bodies good all other e' found =
      elim (Bool-cases (str_eq name other)) [
        | inl same ↦
            let is : some e ≡ some e' = rw (lookup-insert, same) at found in
            let here : lookup other (insert name body bodies) ≡ some body =
              rw (lookup-insert, same) refl in
            (
              body,
              here,
              subst (λ e. IsGood other e body) (some-injective is)
                  (subst (λ n. IsGood n e body) ((eq_iff name other).0 same) good),
            )
        | inr different ↦
            let found' : lookup other env ≡ some e' = rw (lookup-insert, different) at found in
            let (body', there, good') = all other e' found' in
            (body', rw (lookup-insert, different) there, good')
      ]
    where
      some-injective : {a b : Effect} → some a ≡ some b → a ≡ b
      some-injective h = cc

  -- The words that `check_words` accepts.
  words-AllGood :
      (words : List WordDef) (env : Dict Effect) (bodies : Dict Statements) (cells : Cells)
      {cells' : Cells}
      → AllWords (IsCoreWord checker) words
      → check_words checker fuel words cells ≡ ok tt cells'
      → AllGood env bodies
      → AllGood (signatures_of words env) (bodies_of words bodies)
  unfolding check_words check_word declared_effect signatures_of bodies_of
  words-AllGood [] env bodies cells all h good = good
  words-AllGood (word ∷ words) env bodies cells all h good =
      let core = all.0 in
      let h' : continue {A = Unit {0}}
            (check_body checker fuel word.name core.effect word.body cells)
            (λ _. check_words checker fuel words)
          ≡ ok tt _ =
        rw (core.is_declared) at h in
      let (u, middle, one, rest) =
        continue-eq-ok (check_body checker fuel word.name core.effect word.body cells) _ h' in
      let good_word : IsGood word.name core.effect word.body = record {
        good_monomorphic = core.monomorphic;
        good_core = core.core;
        before = cells;
        after = middle;
        checked = one;
      } in
      subst
        (λ o.
          AllGood (signatures_of words (declare word.name o env))
            (bodies_of words (insert word.name word.body bodies)))
        (sym core.is_declared)
        (words-AllGood words (insert word.name core.effect env) (insert word.name word.body bodies)
          middle all.1 rest
          (insert-AllGood word.name core.effect word.body env bodies good_word good))

  -- The words run with n units of fuel.
  AllGood-IsSafeCall :
      (utf8 : String → List ℕ) (bodies : Dict Statements)
      → AllGood checker.env bodies
      → (n : ℕ) → IsSafeCall checker (run_call utf8 bodies n)
  unfolding run_call
  AllGood-IsSafeCall utf8 bodies good n = record {
    monomorphic = λ name e found. (good name e found).2.good_monomorphic;
    keeps = keeps n;
  }
    where
      keeps :
          (n : ℕ) (name : String) (e : Effect)
          → lookup name checker.env ≡ some e
          → (ρ : Valuation) (s : Stack) → HasStackType ρ (inputs e) s
          → Safe ρ (outputs e) (run_call utf8 bodies n name s)
      keeps zero name e found ρ s typed = tt
      keeps (suc n) name e found ρ s typed =
          let (body, there, checked) = good name e found in
          let calls : IsSafeCall checker (run_call utf8 bodies n) = record {
            monomorphic = λ name e found. (good name e found).2.good_monomorphic;
            keeps = keeps n;
          } in
          rw there (
            check_body-Safe checker fuel name e body utf8 (run_call utf8 bodies n) checked.before
              calls checked.good_monomorphic checked.good_core checked.checked ρ s typed)

-- The environment that the second pass collects.
collect_signature-eq-ok :
    (unions : Dict UnionTypeInfo) (name : String) (o : Option Effect) (env : Dict Effect)
    (cells : Cells) {env' : Dict Effect} {cells' : Cells}
    → collect_signature unions name o env cells ≡ ok env' cells'
    → env' ≡ declare name o env
unfolding collect_signature
collect_signature-eq-ok unions name none env cells h = absurd (cc)
collect_signature-eq-ok unions name (some e) env cells h =
    let (u, middle, validated, rest) =
      continue-eq-ok (validate_effect_types unions name e cells) _ h in
    ground arith

collect_signatures-eq-ok :
    (unions : Dict UnionTypeInfo) (words : List WordDef) (env : Dict Effect) (cells : Cells)
    {env' : Dict Effect} {cells' : Cells}
    → collect_signatures unions words env cells ≡ ok env' cells'
    → env' ≡ signatures_of words env
unfolding collect_signatures signatures_of
collect_signatures-eq-ok unions [] env cells h = ground arith
collect_signatures-eq-ok unions (word ∷ words) env cells h =
    let (env1, middle, one, rest) =
      continue-eq-ok (collect_signature unions word.name word.effect env cells) _ h in
    collect_signatures-eq-ok unions words env1 middle rest
    ∙ ap (signatures_of words) (collect_signature-eq-ok unions word.name word.effect env cells one)

check_program-eq-ok :
    (fuel : ℕ) (checker : Declarations) (program : Program) (cells : Cells) {cells' : Cells}
    → check_program fuel checker program cells ≡ ok tt cells'
    → (middle : Cells) × (check_words (declarations checker program) fuel program.words middle
        ≡ ok tt cells')
unfolding check_program
check_program-eq-ok fuel checker program cells {cells'} h =
    let unions = register_unions program.unions checker.unions in
    let (u, c1, valid, h1) =
      continue-eq-ok (validate_union_field_types unions program.unions cells) _ h in
    let (env, c2, collected, h2) =
      continue-eq-ok (collect_signatures unions program.words checker.env c1) _ h1 in
    (
      c2,
      subst
          (λ env.
            check_words (record checker { env = env; unions = unions }) fuel program.words c2
            ≡ ok tt cells')
          (collect_signatures-eq-ok unions program.words checker.env c1 collected) h2,
    )

-- Let `check_program` accept a program with no external words, whose words all declare concrete inputs and
-- outputs over "rest" and have bodies of literals, words with exact signatures, calls of the program's
-- words and `if`, no branch of which ends in a call back into the word's own cycle. Then every
-- word, run with any fuel on a stack of its declared input type, whatever "rest" stands for, runs out of
-- fuel or ends with a stack of its declared output type: no runtime function panics, sets an error or
-- reads below the base, and every `if` finds a Bool.
pub check_program-Safe :
    (fuel : ℕ) (checker : Declarations) (program : Program) (cells : Cells) {cells' : Cells}
    → checker.env ≡ []
    → check_program fuel checker program cells ≡ ok tt cells'
    → AllWords (IsCoreWord (declarations checker program)) program.words
    → (utf8 : String → List ℕ) (n : ℕ) (name : String) (e : Effect)
    → lookup name (signatures_of program.words []) ≡ some e
    → (ρ : Valuation) (s : Stack) → HasStackType ρ (inputs e) s
    → Safe ρ (outputs e) (run_call utf8 (bodies_of program.words []) n name s)
unfolding lookup
check_program-Safe fuel checker program cells no_env h core utf8 n name e found ρ s typed =
    let final = declarations checker program in
    let (middle, words) = check_program-eq-ok fuel checker program cells h in
    let nothing : (name : String) (e : Effect)
        → lookup name checker.env ≡ some e
        → (body : Statements) × (lookup name [] ≡ some body) × IsGood final fuel name e body =
      λ name e found. absurd (none-ne-some (rw no_env at found)) in
    let good = words-AllGood final fuel program.words checker.env [] middle core words nothing in
    let found' : lookup name final.env ≡ some e = rw no_env found in
    (AllGood-IsSafeCall final fuel utf8 (bodies_of program.words []) good n).keeps name e found' ρ s
      typed
  where
    none-ne-some : {e : Effect} → none ≡ some e → ⊥
    none-ne-some h = cc
