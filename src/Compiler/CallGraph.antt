-- ===== src/Compiler/CallGraph.antt =====
-- crates/compiler/src/call_graph.rs: the calls of a word and the components of the graph, over the statements of
-- crates/compiler/src/ast.rs without their spans. A Vec or an Option inside a statement is a type of the
-- block, and a HashSet of names is a list without repetitions. An int_literal
-- carries the 64-bit pattern of its number.
pub mod Calls
use cem.Prelude.{
  ℕ, Bool, true, false, ◌&&◌, ◌||◌, Option, none, some, String, str_eq, List, [], ◌∷◌,
  if◌then◌else◌,
}

pub data Pattern : Type 0 where
  variant : String → Pattern
  variant_with_bindings : String → List String → Pattern

mutual
  pub data Statement : Type 0 where
    int_literal : ℕ → Statement
    float_literal : ℕ → Statement
    bool_literal : Bool → Statement
    string_literal : String → Statement
    symbol : String → Statement
    word_call : String → Statement
    if_else : Statements → ElseBranch → Statement
    quotation : ℕ → Statements → Statement
    match_arms : Arms → Statement

  pub data Statements : Type 0 where
    no_statements : Statements
    and_then : Statement → Statements → Statements

  pub data ElseBranch : Type 0 where
    no_else : ElseBranch
    else_of : Statements → ElseBranch

  pub data Arms : Type 0 where
    no_arms : Arms
    and_arm : Pattern → Statements → Arms → Arms

abbrev pub NameSet : Type 0
NameSet = List String

unfoldable pub contains : NameSet → String → Bool
contains [] name = false
contains (n ∷ set) name = if str_eq n name then true else contains set name

unfoldable pub insert : String → NameSet → NameSet
unfolding contains
insert name set = if contains set name then set else name ∷ set

mutual
  unfolding contains insert

  -- extract_calls_from_statement: what it leaves in `calls`
  pub extract_calls_from_statement : Statement → NameSet → NameSet → NameSet
  extract_calls_from_statement (word_call name) known calls =
      if contains known name then insert name calls else calls
  extract_calls_from_statement (if_else then_branch no_else) known calls =
      extract_calls_from_all then_branch known calls
  extract_calls_from_statement (if_else then_branch (else_of else_branch)) known calls =
      extract_calls_from_all else_branch known (extract_calls_from_all then_branch known calls)
  extract_calls_from_statement (quotation id body) known calls =
      extract_calls_from_all body known calls
  extract_calls_from_statement (match_arms arms) known calls =
      extract_calls_from_arms arms known calls
  extract_calls_from_statement (int_literal _) known calls = calls
  extract_calls_from_statement (float_literal _) known calls = calls
  extract_calls_from_statement (bool_literal _) known calls = calls
  extract_calls_from_statement (string_literal _) known calls = calls
  extract_calls_from_statement (symbol _) known calls = calls

  pub extract_calls_from_all : Statements → NameSet → NameSet → NameSet
  extract_calls_from_all no_statements known calls = calls
  extract_calls_from_all (and_then s rest) known calls =
      extract_calls_from_all rest known (extract_calls_from_statement s known calls)

  pub extract_calls_from_arms : Arms → NameSet → NameSet → NameSet
  extract_calls_from_arms no_arms known calls = calls
  extract_calls_from_arms (and_arm _ body rest) known calls =
      extract_calls_from_arms rest known (extract_calls_from_all body known calls)

unfoldable pub extract_calls : Statements → NameSet → NameSet
unfolding extract_calls_from_all
extract_calls statements known = extract_calls_from_all statements known []

-- CallGraph::is_recursive, over the components that the graph keeps.
unfoldable pub is_recursive : List NameSet → String → Bool
unfolding contains
is_recursive [] word = false
is_recursive (scc ∷ recursive_sccs) word = contains scc word || is_recursive recursive_sccs word

-- CallGraph::are_mutually_recursive
unfoldable pub are_mutually_recursive : List NameSet → String → String → Bool
unfolding contains
are_mutually_recursive [] word1 word2 = false
are_mutually_recursive (scc ∷ recursive_sccs) word1 word2 =
    contains scc word1 && contains scc word2 || are_mutually_recursive recursive_sccs word1 word2
