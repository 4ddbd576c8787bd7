-- ===== src/Runtime/Value.antt =====
-- crates/core/src/value.rs: the values that stand on the stack. An Int is its 64-bit pattern and a
-- Float its bits; a string is its bytes; what a pointer or a handle stands for is a number that
-- identifies it. The fields of a variant, the entries of a map and the environment of a closure
-- are list types of the block.
use cem.Prelude.{ℕ, Bool, Option, none, some, List}

pub data MapKey : Type 0 where
  int : ℕ → MapKey
  string : List ℕ → MapKey
  bool : Bool → MapKey

mutual
  pub data Value : Type 0 where
    int : ℕ → Value
    float : ℕ → Value
    bool : Bool → Value
    string : List ℕ → Value
    symbol : List ℕ → Value
    variant : List ℕ → Values → Value
    map : Entries → Value
    quotation : ℕ → ℕ → Value
    closure : ℕ → Values → Value
    channel : ℕ → Value
    weave_ctx : ℕ → ℕ → Value

  pub data Values : Type 0 where
    no_values : Values
    and_value : Value → Values → Values

  pub data Entries : Type 0 where
    no_entries : Entries
    and_entry : MapKey → Value → Entries → Entries

-- MapKey::from_value
unfoldable pub from_value : Value → Option MapKey
from_value (int n) = some (MapKey.int n)
from_value (string s) = some (MapKey.string s)
from_value (bool b) = some (MapKey.bool b)
from_value _ = none

-- MapKey::to_value
unfoldable pub to_value : MapKey → Value
to_value (MapKey.int n) = int n
to_value (MapKey.string s) = string s
to_value (MapKey.bool b) = bool b
