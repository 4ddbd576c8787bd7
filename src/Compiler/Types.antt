-- ===== src/Compiler/Types.antt =====
-- crates/compiler/src/types.rs: the types of the language and stack types with row variables.
-- Where the source has a Vec inside a type (the captures of a closure, the side effects of an
-- effect) the block has a list type of its own.
pub mod Equality
use Prim.Native.String.{String}
use cem.Prelude.{ℕ, suc, Bool, true, false, ◌||◌, Option, none, some, List, [], ◌∷◌}

mutual
  pub data SeqType : Type 0 where
    int float bool string symbol channel : SeqType
    quotation : Effect → SeqType
    closure : Effect → Captures → SeqType
    union : String → SeqType
    var : String → SeqType

  pub data StackType : Type 0 where
    empty : StackType
    cons : StackType → SeqType → StackType
    row_var : String → StackType

  pub data Effect : Type 0 where
    effect : StackType → StackType → SideEffects → Effect

  pub data SideEffect : Type 0 where
    yields : SeqType → SideEffect

  pub data SideEffects : Type 0 where
    no_effects : SideEffects
    and_effect : SideEffect → SideEffects → SideEffects

  pub data Captures : Type 0 where
    no_captures : Captures
    and_capture : SeqType → Captures → Captures

abbrev pub inputs : Effect → StackType
inputs (effect i _ _) = i

abbrev pub outputs : Effect → StackType
outputs (effect _ o _) = o

abbrev pub effects : Effect → SideEffects
effects (effect _ _ e) = e

-- StackType::singleton
unfoldable pub singleton : SeqType → StackType
singleton ty = cons empty ty

-- StackType::push
unfoldable pub push : StackType → SeqType → StackType
push s ty = cons s ty

-- StackType::pop
unfoldable pub pop : StackType → Option (StackType × SeqType)
pop empty = none
pop (cons rest top) = some (rest, top)
pop (row_var _) = none

-- The fold of StackType::from_vec, from the stack that it has built so far.
unfoldable pub push_all : StackType → List SeqType → StackType
unfolding push
push_all s [] = s
push_all s (ty ∷ types) = push_all (push s ty) types

-- StackType::from_vec: bottom to top.
unfoldable pub from_vec : List SeqType → StackType
unfolding push_all
from_vec types = push_all empty types

-- Effect::new
unfoldable pub pure_effect : StackType → StackType → Effect
pure_effect i o = effect i o no_effects

-- Effect::is_pure
unfoldable pub is_pure : Effect → Bool
is_pure (effect _ _ no_effects) = true
is_pure (effect _ _ (and_effect _ _)) = false

any_yield : SideEffects → Bool
any_yield no_effects = false
any_yield (and_effect (yields _) rest) = true || any_yield rest

-- Effect::has_yield
unfoldable pub has_yield : Effect → Bool
unfolding any_yield
has_yield (effect _ _ es) = any_yield es

-- How many values a stack type names above its row variable or its bottom.
unfoldable pub depth : StackType → ℕ
depth empty = 0
depth (row_var _) = 0
depth (cons rest _) = suc (depth rest)
