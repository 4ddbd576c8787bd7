-- ===== src/Lib.antt =====
-- Verification library for Seq, a statically typed concatenative language: its compiler, its runtime
-- and the line editor of its REPL.
--
-- A Seq program is parsed, its words are typed by unification of stack effects, and it is compiled to
-- calls of runtime functions, which work on the stack of a strand. The library follows this path.
--
-- Compiler: crates/compiler/src.
--   Types models types.rs: Type (SeqType), StackType with row variables, Effect and SideEffect. A Vec
--   inside a type is a list type of the block.
--   Unification models unification.rs. Subst holds two association lists for the two HashMaps;
--   apply_type, apply_stack, compose, occurs_in_type, occurs_in_stack, unify_types and unify_stacks
--   keep their names. An error is a constructor of UnifyError in place of a message. unify_stacks
--   recurses on fuel, since its arguments grow by substitution; Fuel says how much stacks without
--   quotations and closures need. Its arms for variables are
--   bind_type and bind_row, and the arms for quotations and closures share unify_effects.
--   CaptureAnalysis models capture_analysis.rs: extract_concrete_types and calculate_captures.
--   CallGraph models the statements of ast.rs, without spans, and extract_calls of call_graph.rs; a
--   HashSet of names is a list without repetitions. int_literal carries the 64-bit pattern. The
--   components that the graph keeps are data; is_recursive and are_mutually_recursive read them.
--   BuiltinTable models builtins.rs: one entry for each word of the table, in the files of its sections.
--   TypeChecker models typechecker.rs. State holds what is fixed (Declarations: env, unions and the
--   components of the call graph) and the cells that the checker changes (Cells, one field for each
--   RefCell and Cell) in a monad of state and error. Freshen has fresh_name and the freshening of
--   effects, Positions the walks along a stack type, Apply apply_effect and lookup_word_effect,
--   Branches infer_if and the test for divergence, Matching match, Infer the statements, quotations
--   and the special words, Check check_word, and CheckProgram the three passes of check_program.
--   The fuel is that of the unification, and of the walks under it. Sound runs a body with the
--   functions of Runtime and Builtins: its fragment is that of literals, built-in words of exact
--   signatures, calls of words with concrete effects, and if whose branches do not end in a call back
--   into the cycle of the word. Tests/Accepted has programs outside it.
-- Runtime: crates/core/src and crates/runtime/src.
--   Value models value.rs, with 64-bit patterns for Int, and handles for what lives elsewhere.
--   Stack models stack_old.rs, the default stack: a list of values from the top to the base. A result
--   is done, flagged (a runtime error is set), panicked, or undefined (below the base).
--   Word holds the operations of i64 that the source uses, on patterns below 2 ^ 64.
--   Arithmetic models arithmetic.rs: one function for each patch_seq function.
--   Lists models list_ops.rs in the same way. The code of a quotation or a closure is a parameter of
--   list_map, list_filter, list_fold and list_each: it gives what the code leaves above a fresh base,
--   or none where it panics.
--   Maps models map_ops.rs: a HashMap is the list of its entries, of distinct keys, in the order of its
--   iteration, which the theorems do not depend on.
--   Variants models variant_ops.rs; the functions that make variants differ in the number of fields.
--   Mpmc is the interface of the channels of the crate may that the runtime uses, with the documented
--   behaviour of an unbounded queue as its laws.
--   Weave models weave.rs. A step is what a strand or its caller does between two accesses to a channel
--   or to ACTIVE_STRANDS: step_of has those of the coroutine of patch_seq_weave and of patch_seq_yield,
--   resume_send and resume_receive the two halves of patch_seq_resume. The code of the quotation, a
--   parameter, goes from a resume value to its next yield or to its end, with the WeaveCtx on top.
--   Moves makes one system of the weave, its caller and the strands elsewhere, in any interleaving.
-- Builtins: the signatures of crates/compiler/src/builtins.rs for the words on integers, Booleans and
--   the stack, beside the runtime functions that BUILTIN_SYMBOLS of
--   crates/compiler/src/codegen/runtime.rs names. Semantics says when a stack of values has a stack
--   type, for any meaning of the type variables and the row variable. Here compiler and runtime meet.
-- VimLine: crates/vim-line/src. Text holds what is used of str, on bytes; a slice or an edit out of
--   range or inside a character is none, a panic. Edit models lib.rs, and the others vim.rs: Editor
--   the state, Motion and Bracket the motions, Change the edits and operators, Keys the arms of the
--   matches on keys, Normal and Handlers the handlers and handle_key. The loops forward run on the
--   number of bytes left as fuel, which is enough since each round goes one byte on. Replace has
--   the loop of crates/repl/src/app.rs that applies the edits.
-- Prelude: names passed on, Boolean tests on numbers, lists, maps and signed integers. Tests: examples.
--
-- Not modelled: the parser, the search for the components of the call graph, lints, code generation, the
-- words on strings, channels and the network, the rest of the scheduler, and the encoding of
-- values in 40-byte slots; what calls the operating system or other crates, and floating-point
-- numbers. Of a weave, the checks that abort the process are left out. Memory is not
-- modelled: a clone of a value is the value.
pub mod Prelude
pub mod Builtins
pub mod Compiler
pub mod Runtime
pub mod Tests
pub mod VimLine
