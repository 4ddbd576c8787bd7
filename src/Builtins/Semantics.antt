-- ===== src/Builtins/Semantics.antt =====
-- What it means that a stack of values has a stack type. A type variable stands for any predicate on
-- values and a row variable for any predicate on stacks, so a word that keeps its signature for all
-- of them is polymorphic.
use cem.Prelude.{ℕ, ◌^◌, ◌<◌, String, Bool, ◌≡◌, refl, [], ◌∷◌}
use cem.Compiler.Types.{
  SeqType, int, float, bool, string, symbol, channel, var, StackType, empty, cons, row_var,
}
use cem.Runtime.Value.{Value}
use cem.Runtime.Stack.{Stack}

abbrev pub IsInt : Value → Type 0
IsInt (Value.int n) = n < 2 ^ 64
IsInt _ = ⊥

abbrev pub IsBool : Value → Type 0
IsBool (Value.bool b) = Unit
IsBool _ = ⊥

abbrev pub IsFloat : Value → Type 0
IsFloat (Value.float _) = Unit
IsFloat _ = ⊥

abbrev pub IsString : Value → Type 0
IsString (Value.string _) = Unit
IsString _ = ⊥

abbrev pub IsSymbol : Value → Type 0
IsSymbol (Value.symbol _) = Unit
IsSymbol _ = ⊥

abbrev pub IsChannel : Value → Type 0
IsChannel (Value.channel _) = Unit
IsChannel _ = ⊥

-- A record, so that a valuation of the variables can be passed about.
pub record Valuation : Type 1 where
  pub type_var : String → Value → Type 0
  pub row : String → Stack → Type 0

module _ (ρ : Valuation) where
  -- Quotations, closures and unions do not occur in the signatures at hand.
  abbrev pub HasType : SeqType → Value → Type 0
  HasType int x = IsInt x
  HasType bool x = IsBool x
  HasType float x = IsFloat x
  HasType string x = IsString x
  HasType symbol x = IsSymbol x
  HasType channel x = IsChannel x
  HasType (var name) x = ρ.type_var name x
  HasType _ x = ⊥

  abbrev pub HasStackType : StackType → Stack → Type 0
  HasStackType empty s = s ≡ []
  HasStackType (row_var name) s = ρ.row name s
  HasStackType (cons rest top) [] = ⊥
  HasStackType (cons rest top) (x ∷ s) = HasStackType rest s × HasType top x

pub int_value : (x : Value) → IsInt x → (n : ℕ) × (x ≡ Value.int n) × (n < 2 ^ 64)
int_value (Value.int n) h = (n, refl, h)
int_value (Value.float _) h = absurd h
int_value (Value.bool _) h = absurd h
int_value (Value.string _) h = absurd h
int_value (Value.symbol _) h = absurd h
int_value (Value.variant _ _) h = absurd h
int_value (Value.map _) h = absurd h
int_value (Value.quotation _ _) h = absurd h
int_value (Value.closure _ _) h = absurd h
int_value (Value.channel _) h = absurd h
int_value (Value.weave_ctx _ _) h = absurd h

pub bool_value : (x : Value) → IsBool x → (b : Bool) × (x ≡ Value.bool b)
bool_value (Value.bool b) h = (b, refl)
bool_value (Value.int _) h = absurd h
bool_value _ h = absurd h
