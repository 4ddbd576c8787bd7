-- ===== src/Compiler/CaptureAnalysis/Split.antt =====
-- The captures of a closure against what its body takes, and how many values the call provides.
use cem.Prelude.{◌<◌, ◌≡◌, refl, ◌∙◌, sym, List, [], ◌∷◌, ◌++◌, length, length-append, arith}
use mathlib.Core.List.{append-nil, append_assoc}
use cem.Compiler.Types.{
  SeqType, StackType, empty, cons, row_var, Effect, inputs, depth, push_all, from_vec,
}
use cem.Compiler.CaptureAnalysis.{
  collect, extract_concrete_types, CaptureResult, captures, too_many,
}

pub length-extract : (st : StackType) → length (extract_concrete_types st) ≡ depth st
unfolding extract_concrete_types depth
length-extract empty = refl
length-extract (row_var name) = refl
length-extract (cons rest top) =
    omega (arith, length-append (collect rest []) (top ∷ []), length-extract rest)

extract-push_all :
    (st : StackType) (types : List SeqType)
    → extract_concrete_types (push_all st types) ≡ extract_concrete_types st ++ types
unfolding extract_concrete_types push_all
extract-push_all st [] = sym (append-nil _)
extract-push_all st (ty ∷ types) =
    extract-push_all (cons st ty) types ∙ append_assoc (collect st []) (ty ∷ []) types

-- The types that `from_vec` piles up, bottom to top, are those that the analysis reads back.
pub extract-from_vec : (types : List SeqType) → extract_concrete_types (from_vec types) ≡ types
unfolding from_vec extract_concrete_types
extract-from_vec types = extract-push_all empty types

-- What a success means: the list `found` is the bottom of the body's inputs, and as many of them lie
-- above it as the call provides.
abbrev pub SplitsInputs : Effect → Effect → CaptureResult → Type 0
SplitsInputs body call (captures found) =
    (provided : List SeqType) × (extract_concrete_types (inputs body) ≡ found ++ provided)
    × (length provided ≡ depth (inputs call))
SplitsInputs body call (too_many given needed) =
    (given ≡ depth (inputs call)) × (needed ≡ depth (inputs body)) × (needed < given)
