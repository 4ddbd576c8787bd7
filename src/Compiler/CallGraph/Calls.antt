-- ===== src/Compiler/CallGraph/Calls.antt =====
-- crates/compiler/src/call_graph.rs: `extract_calls` against the calls that stand in a body.
use cem.Prelude.{
  ◌≡◌, subst, refl, ◌∙◌, inl, inr, Bool, true, false, ◌||◌, ◌&&◌, String, str_eq, eq_iff, [], arith,
  if◌then◌else◌, Bool-cases,
}
use cem.Compiler.CallGraph.{
  Statement, no_else, else_of, word_call, if_else, quotation, match_arms, int_literal,
  float_literal, bool_literal, string_literal, symbol, Statements, no_statements, and_then, Arms,
  no_arms, and_arm, NameSet, contains, insert, extract_calls_from_statement, extract_calls_from_all,
  extract_calls_from_arms, extract_calls,
}

-- Somewhere in the statement, in its branches, quotations and arms included, the word is called.
mutual
  pub calls : String → Statement → Bool
  calls word (word_call name) = str_eq name word
  calls word (if_else then_branch no_else) = any_calls word then_branch
  calls word (if_else then_branch (else_of else_branch)) =
      any_calls word then_branch || any_calls word else_branch
  calls word (quotation id body) = any_calls word body
  calls word (match_arms arms) = arm_calls word arms
  calls word (int_literal _) = false
  calls word (float_literal _) = false
  calls word (bool_literal _) = false
  calls word (string_literal _) = false
  calls word (symbol _) = false

  pub any_calls : String → Statements → Bool
  any_calls word no_statements = false
  any_calls word (and_then s rest) = calls word s || any_calls word rest

  pub arm_calls : String → Arms → Bool
  arm_calls word no_arms = false
  arm_calls word (and_arm _ body rest) = any_calls word body || arm_calls word rest

or_true : (b : Bool) → true ≡ (b || true)
or_true b = ground arith

or_nothing : (b c : Bool) → b ≡ (b || c && false)
or_nothing b c = ground arith

contains-insert :
    (name word : String) (set : NameSet)
    → contains (insert name set) word ≡ (str_eq name word || contains set word)
unfolding contains insert
contains-insert name word set = elim (Bool-cases (contains set name)) [
  | inr new ↦ rw new (ground arith)
  | inl old ↦ elim (Bool-cases (str_eq name word)) [
    | inr other ↦ rw (old, other) refl
    | inl same_name ↦
        let eq : name ≡ word = ground (arith, eq_iff name word) in
        rw (old, same_name) (subst (λ w. contains set w ≡ true) eq old)
  ]
]

-- A call of the word `name` where it is known adds it and nothing else.
call_lem :
    (word name : String) (known found : NameSet)
    → contains (if contains known name then insert name found else found) word
      ≡ (contains found word || contains known word && str_eq name word)
call_lem word name known found = elim (Bool-cases (str_eq name word)) [
  | inl same_name ↦
      let eq : name ≡ word = ground (arith, eq_iff name word) in
      elim (Bool-cases (contains known name)) [
        | inl is_known ↦
            rw (is_known, subst (λ w. contains known w ≡ true) eq is_known, same_name)
              (rw (contains-insert name word found, same_name) (or_true (contains found word)))
        | inr unknown ↦
            rw (unknown, subst (λ w. contains known w ≡ false) eq unknown)
              (or_nothing (contains found word) false)
      ]
  | inr other ↦ elim (Bool-cases (contains known name)) [
    | inl is_known ↦
        rw (is_known, contains-insert name word found, other)
          (or_nothing (contains found word) (contains known word))
    | inr unknown ↦ rw (unknown, other) (or_nothing (contains found word) (contains known word))
  ]
]

-- Two parts in turn.
both_lem :
    (found first second known : Bool)
    → ((found || known && first) || known && second) ≡ (found || known && (first || second))
both_lem found first second known = ground arith

module _ (word : String) (known : NameSet) where
  mutual
    unfolding extract_calls_from_statement extract_calls_from_all extract_calls_from_arms calls
        any_calls arm_calls

    statement_lem :
        (s : Statement) (found : NameSet)
        → contains (extract_calls_from_statement s known found) word
          ≡ (contains found word || contains known word && calls word s)
    statement_lem (word_call name) found = call_lem word name known found
    statement_lem (if_else then_branch no_else) found = all_lem then_branch found
    statement_lem (if_else then_branch (else_of else_branch)) found =
        all_lem else_branch (extract_calls_from_all then_branch known found)
        ∙ rw (all_lem then_branch found) (
            both_lem (contains found word) (any_calls word then_branch) (any_calls word else_branch)
              (contains known word))
    statement_lem (quotation id body) found = all_lem body found
    statement_lem (match_arms arms) found = arms_lem arms found
    statement_lem (int_literal _) found = ground arith
    statement_lem (float_literal _) found = ground arith
    statement_lem (bool_literal _) found = ground arith
    statement_lem (string_literal _) found = ground arith
    statement_lem (symbol _) found = ground arith

    all_lem :
        (s : Statements) (found : NameSet)
        → contains (extract_calls_from_all s known found) word
          ≡ (contains found word || contains known word && any_calls word s)
    all_lem no_statements found = ground arith
    all_lem (and_then s rest) found =
        all_lem rest (extract_calls_from_statement s known found)
        ∙ rw (statement_lem s found) (
            both_lem (contains found word) (calls word s) (any_calls word rest)
              (contains known word))

    arms_lem :
        (arms : Arms) (found : NameSet)
        → contains (extract_calls_from_arms arms known found) word
          ≡ (contains found word || contains known word && arm_calls word arms)
    arms_lem no_arms found = ground arith
    arms_lem (and_arm pattern body rest) found =
        arms_lem rest (extract_calls_from_all body known found)
        ∙ rw (all_lem body found) (
            both_lem (contains found word) (any_calls word body) (arm_calls word rest)
              (contains known word))

-- The calls that `extract_calls` finds in a body are those of the known words, whether in branches, in
-- quotations or in the arms of matches.
pub extract_calls_lem :
    (word : String) (body : Statements) (known : NameSet)
    → contains (extract_calls body known) word ≡ (contains known word && any_calls word body)
unfolding extract_calls contains
extract_calls_lem word body known = all_lem word known body []
