-- ===== src/Compiler/TypeChecker/CheckProgram.antt =====
-- crates/compiler/src/typechecker.rs: `check_program`, with the validation of the names of types. A union
-- of crates/compiler/src/ast.rs is its variants with their fields, each a name and the name of its type.
use cem.Prelude.{
  ℕ, String, Bool, false, Option, none, some, List, [], ◌∷◌, ◌||◌, str_eq, if◌then◌else◌,
}
use cem.Prelude.Dict.{Dict, insert}
use cem.Compiler.Types.{
  SeqType, int, float, bool, string, symbol, channel, quotation, closure, union, var, StackType,
  empty, cons, row_var, Effect, effect, Captures, no_captures, and_capture,
}
use cem.Compiler.TypeChecker.State.{
  Declarations, VariantInfo, VariantFieldInfo, UnionTypeInfo, M, ◌>>=◌, ◌>>◌, pure, fail,
  unknown_type, unknown_union, missing_effect,
}
use cem.Compiler.TypeChecker.Check.{WordDef, check_words}

pub record UnionField : Type 0 where
  pub name : String
  pub type_name : String

pub record UnionVariant : Type 0 where
  pub name : String
  pub fields : List UnionField

pub record UnionDef : Type 0 where
  pub name : String
  pub variants : List UnionVariant

pub record Program : Type 0 where
  pub unions : List UnionDef
  pub words : List WordDef

unfoldable pub parse_type_name : String → SeqType
parse_type_name name =
    if str_eq name "Int"
    then int
    else if str_eq name "Float"
    then float
    else if str_eq name "Bool"
    then bool
    else if str_eq name "String"
    then string
    else if str_eq name "Channel"
    then channel
    else union name

-- `contains_key`
unfoldable pub contains_key {ℓ} : {V : Type ℓ} → String → Dict V → Bool
contains_key name [] = false
contains_key name ((key, _) ∷ entries) = str_eq key name || contains_key name entries

unfoldable pub is_valid_type_name : Dict UnionTypeInfo → String → Bool
unfolding contains_key
is_valid_type_name unions name =
    str_eq name "Int"
    || str_eq name "Float"
    || str_eq name "Bool"
    || str_eq name "String"
    || str_eq name "Channel"
    || contains_key name unions

field_infos : List UnionField → List VariantFieldInfo
unfolding parse_type_name
field_infos [] = []
field_infos (f ∷ fields) =
    record { name = f.name; field_type = parse_type_name f.type_name } ∷ field_infos fields

variant_infos : List UnionVariant → List VariantInfo
unfolding field_infos
variant_infos [] = []
variant_infos (v ∷ variants) =
    record { name = v.name; fields = field_infos v.fields } ∷ variant_infos variants

-- The first pass.
unfoldable pub register_unions : List UnionDef → Dict UnionTypeInfo → Dict UnionTypeInfo
unfolding variant_infos
register_unions [] unions = unions
register_unions (u ∷ defs) unions =
    register_unions defs
      (insert u.name (record { name = u.name; variants = variant_infos u.variants }) unions)

module _ (unions : Dict UnionTypeInfo) where
  validate_fields : List UnionField → M (Unit {0})
  validate_fields [] = pure tt
  validate_fields (f ∷ fields) =
      if is_valid_type_name unions f.type_name
      then validate_fields fields
      else fail (unknown_type f.type_name)

  validate_variants : List UnionVariant → M (Unit {0})
  unfolding validate_fields
  validate_variants [] = pure tt
  validate_variants (v ∷ variants) = do validate_fields v.fields; validate_variants variants

  unfoldable pub validate_union_field_types : List UnionDef → M (Unit {0})
  unfolding validate_variants
  validate_union_field_types [] = pure tt
  validate_union_field_types (u ∷ defs) = do
    validate_variants u.variants
    validate_union_field_types defs

  unfoldable mutual
    pub validate_stack_types : String → StackType → M (Unit {0})
    validate_stack_types word empty = pure tt
    validate_stack_types word (row_var _) = pure tt
    validate_stack_types word (cons rest top) = do
      validate_type word top
      validate_stack_types word rest

    pub validate_type : String → SeqType → M (Unit {0})
    validate_type word (var _) = pure tt
    validate_type word (quotation e) = validate_effect_types word e
    validate_type word (closure e c) = do validate_effect_types word e; validate_captures word c
    validate_type word (union name) =
        if contains_key name unions then pure tt else fail (unknown_union word name)
    validate_type word int = pure tt
    validate_type word float = pure tt
    validate_type word bool = pure tt
    validate_type word string = pure tt
    validate_type word symbol = pure tt
    validate_type word channel = pure tt

    pub validate_effect_types : String → Effect → M (Unit {0})
    validate_effect_types word (effect i o _) = do
      validate_stack_types word i
      validate_stack_types word o

    pub validate_captures : String → Captures → M (Unit {0})
    validate_captures word no_captures = pure tt
    validate_captures word (and_capture t c) = do validate_type word t; validate_captures word c

-- A word in the second pass.
unfoldable pub collect_signature :
    Dict UnionTypeInfo → String → Option Effect → Dict Effect → M (Dict Effect)
collect_signature unions name none env = fail (missing_effect name)
collect_signature unions name (some e) env = do
  validate_effect_types unions name e
  pure (insert name e env)

-- The second pass: the signatures of the words, over the environment so far.
unfoldable pub collect_signatures :
    Dict UnionTypeInfo → List WordDef → Dict Effect → M (Dict Effect)
unfolding collect_signature
collect_signatures unions [] env = pure env
collect_signatures unions (word ∷ words) env = do
  env' ← collect_signature unions word.name word.effect env
  collect_signatures unions words env'

unfoldable pub check_program : ℕ → Declarations → Program → M (Unit {0})
unfolding register_unions validate_union_field_types collect_signatures check_words
check_program fuel checker program = do
  let unions = register_unions program.unions checker.unions
  validate_union_field_types unions program.unions
  env ← collect_signatures unions program.words checker.env
  check_words (record checker { env = env; unions = unions }) fuel program.words
