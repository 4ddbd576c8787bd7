-- ===== src/Compiler/TypeChecker/Sound/WordCall.antt =====
-- The call of a word, built-in or of the program, is safe if it checks.
use cem.Prelude.{
  ℕ, String, Bool-cases, false, none, some, ◌≡◌, refl, inl, inr, Option-cases, str_eq, eq_iff,
  subst,
}
use cem.Prelude.Dict.{lookup}
use cem.Compiler.Types.{StackType, Effect}
use cem.Compiler.BuiltinTable.{builtin_signature}
use cem.Compiler.TypeChecker.State.{Declarations, Cells, Checked, ok, Inferred, unknown_word}
use cem.Compiler.TypeChecker.Apply.{lookup_word_effect, or_fail}
use cem.Compiler.TypeChecker.Branches.{infer_word_call, apply_word}
use cem.Compiler.TypeChecker.Ground.{Over}
use cem.Compiler.TypeChecker.Sound.{Ending, ending, run_word, IsCallable}
use cem.Compiler.TypeChecker.Sound.Words.{signature-IsSimple}
use cem.Compiler.TypeChecker.Sound.Call.{
  IsSafe, IsSafeCall, call-IsSafe, symbol-Safe, IsMonomorphic-IsSimple,
}
use cem.Builtins.{Builtin, signature, symbol}
use cem.Builtins.Names.{builtin_named, builtin_named-IsNamed}
use cem.Builtins.Sound.{IsExact}
use cem.Runtime.Stack.{Stack}

-- A name with no signature among the built-in words is none of the special cases.
not_builtin :
    (name other : String) {e : Effect}
    → builtin_signature name ≡ none
    → builtin_signature other ≡ some e
    → str_eq name other ≡ false
not_builtin name other none_found found = elim (Bool-cases (str_eq name other)) [
  | inl same ↦
      let n : builtin_signature other ≡ none =
        subst (λ x. builtin_signature x ≡ none) ((eq_iff name other).0 same) none_found in
      cc
  | inr different ↦ different
]

module _ (checker : Declarations) (fuel : ℕ) (call : String → Stack → Ending) where
  builtin-IsSafe :
      (name : String) (w : Builtin) (st : StackType) (cells : Cells) {r : Inferred} {cells' : Cells}
      → builtin_named name ≡ some w
      → IsExact w
      → Over "rest" st
      → infer_word_call checker fuel name st cells ≡ ok r cells'
      → IsSafe cells cells' st r.stack (run_word (some w) (call name))
  unfolding infer_word_call lookup_word_effect
  builtin-IsSafe name w st cells named exact over h =
      let (signed, a, b, c, plain) = builtin_named-IsNamed name named in
      call-IsSafe checker fuel name (signature w) (λ s. ending (symbol w s)) st cells
        (rw signed refl) plain (signature-IsSimple w exact)
        (λ ρ s typed. symbol-Safe w ρ s exact typed) over (rw (a, b, c) at h)

  unknown-ne-ok :
      (name : String) (st : StackType) (cells : Cells) {r : Inferred} {cells' : Cells}
      → lookup_word_effect checker name ≡ none
      → apply_word checker fuel name st cells ≡ ok r cells'
      → ⊥
  unfolding apply_word or_fail
  unknown-ne-ok name st cells {r} {cells'} missing h =
      let failed : Checked.err (unknown_word name) ≡ ok r cells' = rw missing at h in cc

  -- A name that is not in the environment either is an error.
  program_word-IsSafe :
      (name : String) (st : StackType) (cells : Cells) {r : Inferred} {cells' : Cells}
      → builtin_signature name ≡ none
      → IsSafeCall checker call
      → Over "rest" st
      → infer_word_call checker fuel name st cells ≡ ok r cells'
      → IsSafe cells cells' st r.stack (call name)
  unfolding infer_word_call lookup_word_effect builtin_signature
  program_word-IsSafe name st cells unnamed calls over h =
      let plain : apply_word checker fuel name st cells ≡ ok _ _ =
        rw
          (
            not_builtin name ">aux" unnamed refl,
            not_builtin name "aux>" unnamed refl,
            not_builtin name "call" unnamed refl,
          )
          at h in
      elim (Option-cases (lookup name checker.env)) [
        | inl missing ↦ absurd (unknown-ne-ok name st cells (rw (unnamed, missing) refl) plain)
        | inr (e, found) ↦
            call-IsSafe checker fuel name e (call name) st cells (rw (unnamed, found) refl)
              (not_builtin name "strand.spawn" unnamed refl)
              (IsMonomorphic-IsSimple e (calls.monomorphic name e found)) (calls.keeps name e found)
              over plain
      ]

  pub infer_word_call-IsSafe :
      (name : String) (st : StackType) (cells : Cells) {r : Inferred} {cells' : Cells}
      → IsCallable (builtin_named name) name
      → IsSafeCall checker call
      → Over "rest" st
      → infer_word_call checker fuel name st cells ≡ ok r cells'
      → IsSafe cells cells' st r.stack (run_word (builtin_named name) (call name))
  infer_word_call-IsSafe name st cells callable calls over h =
      elim (Option-cases (builtin_named name)) [
        | inl unnamed ↦ rw unnamed (
            program_word-IsSafe name st cells (subst (λ o. IsCallable o name) unnamed callable)
              calls over h)
        | inr (w, named) ↦ rw named (
            builtin-IsSafe name w st cells named (subst (λ o. IsCallable o name) named callable)
              over h)
      ]
