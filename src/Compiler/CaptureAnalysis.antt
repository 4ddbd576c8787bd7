-- ===== src/Compiler/CaptureAnalysis.antt =====
-- crates/compiler/src/capture_analysis.rs: what a closure captures where it is created.
pub mod Split
use cem.Prelude.{ℕ, ◌-◌, List, [], ◌∷◌, ◌++◌, ltb, length, take, if◌then◌else◌}
use cem.Compiler.Types.{SeqType, StackType, empty, cons, row_var, Effect, inputs}

-- `collect` of extract_concrete_types: the Vec so far, then the types of the stack, bottom to top.
collect : StackType → List SeqType → List SeqType
collect (cons rest top) result = collect rest result ++ top ∷ []
collect empty result = result
collect (row_var _) result = result

unfoldable pub extract_concrete_types : StackType → List SeqType
unfolding collect
extract_concrete_types stack = collect stack []

-- The error message prints both counts: what the call site provides, and what the body needs.
pub data CaptureResult : Type 0 where
  captures : List SeqType → CaptureResult
  too_many : ℕ → ℕ → CaptureResult

unfoldable pub calculate_captures : Effect → Effect → CaptureResult
calculate_captures body_effect call_effect =
    let body_inputs = extract_concrete_types (inputs body_effect) in
    let call_inputs = extract_concrete_types (inputs call_effect) in
    if ltb (length body_inputs) (length call_inputs)
    then too_many (length call_inputs) (length body_inputs)
    else captures (take (length body_inputs - length call_inputs) body_inputs)
