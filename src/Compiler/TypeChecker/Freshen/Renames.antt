-- ===== src/Compiler/TypeChecker/Freshen/Renames.antt =====
-- Freshening renames: one map of names serves the inputs and the outputs of an effect.
use cem.Prelude.{
  String, ◌≡◌, refl, ap₂, ap, inl, inr, none, some, [], arith, eq_iff, eq_refl, Option-cases, ℕ,
  ◌∙◌,
}
use cem.Prelude.Dict.{Dict, lookup, insert, lookup-insert}
use cem.Compiler.Types.{
  SeqType, int, quotation, closure, var, StackType, empty, cons, row_var, Effect, effect, inputs,
  outputs,
}
use cem.Compiler.TypeChecker.State.{Cells, ok}
use cem.Compiler.TypeChecker.Freshen.{
  Renaming, type_entry, row_entry, fresh_name, freshen_stack, freshen_type, freshen_effect_from,
  freshen_effect,
}
use cem.Compiler.TypeChecker.Ground.{SimpleType, Simple}
use cem.Compiler.TypeChecker.Ground.Instance.{Names, new_name, rename_type, rename}

-- One map keeps the entries of another.
abbrev Keeps : Dict String → Dict String → Type 0
Keeps m m' = (name value : String) → lookup name m ≡ some value → lookup name m' ≡ some value

abbrev Known : Dict String → String → Type 0
Known m name = (value : String) × (lookup name m ≡ some value)

record Extends (r r' : Renaming) : Type 0 where
  types : Keeps r.type_map r'.type_map
  rows : Keeps r.row_map r'.row_map

Extends-refl : (r : Renaming) → Extends r r
Extends-refl r = record { types = λ name value h. h; rows = λ name value h. h }

Extends-trans : {r s t : Renaming} → Extends r s → Extends s t → Extends r t
Extends-trans a b = record {
  types = λ name value h. b.types name value (a.types name value h);
  rows = λ name value h. b.rows name value (a.rows name value h);
}

abbrev names_of : Renaming → Names
names_of r = record { types = r.type_map; rows = r.row_map }

abbrev KnownType : Renaming → SeqType → Type 0
KnownType r (var name) = Known r.type_map name
KnownType r ty = Unit

abbrev KnownStack : Renaming → StackType → Type 0
KnownStack r empty = Unit
KnownStack r (row_var name) = Known r.row_map name
KnownStack r (cons rest top) = KnownStack r rest × KnownType r top

KnownType-Extends :
    {r r' : Renaming} (ty : SeqType) → Extends r r' → KnownType r ty → KnownType r' ty
KnownType-Extends (var name) e k = (k.0, e.types name k.0 k.1)
KnownType-Extends int e k = tt
KnownType-Extends _ e k = tt

KnownStack-Extends :
    {r r' : Renaming} (st : StackType) → Extends r r' → KnownStack r st → KnownStack r' st
KnownStack-Extends empty e k = tt
KnownStack-Extends (row_var name) e k = (k.0, e.rows name k.0 k.1)
KnownStack-Extends (cons rest top) e k =
    (KnownStack-Extends rest e k.0, KnownType-Extends top e k.1)

-- What has been renamed is renamed so for good.
new_name-Keeps :
    (m m' : Dict String) (name : String)
    → Keeps m m'
    → Known m name
    → new_name m name ≡ new_name m' name
new_name-Keeps m m' name keep k = rw (k.1, keep name k.0 k.1)

rename_type-Extends :
    {r r' : Renaming} (ty : SeqType)
    → Extends r r'
    → KnownType r ty
    → rename_type (names_of r) ty ≡ rename_type (names_of r') ty
rename_type-Extends (var name) e k = ap var (new_name-Keeps _ _ name e.types k)
rename_type-Extends int e k = refl
rename_type-Extends _ e k = refl

rename-Extends :
    {r r' : Renaming} (st : StackType)
    → Extends r r'
    → KnownStack r st
    → rename (names_of r) st ≡ rename (names_of r') st
rename-Extends empty e k = refl
rename-Extends (row_var name) e k = ap row_var (new_name-Keeps _ _ name e.rows k)
rename-Extends (cons rest top) e k =
    ap₂ cons (rename-Extends rest e k.0) (rename_type-Extends top e k.1)

Keeps-insert :
    (name fresh : String) (m : Dict String) → lookup name m ≡ none → Keeps m (insert name fresh m)
Keeps-insert name fresh m free other value h =
    ground (arith, lookup-insert name other fresh m, eq_iff name other)

lookup-insert_self :
    (name fresh : String) (m : Dict String) → lookup name (insert name fresh m) ≡ some fresh
lookup-insert_self name fresh m = rw (lookup-insert, eq_refl)

record Freshened (r r' : Renaming) (st st' : StackType) : Type 0 where
  renamed : st' ≡ rename (names_of r') st
  extends : Extends r r'
  known : KnownStack r' st

record FreshenedType (r r' : Renaming) (ty ty' : SeqType) : Type 0 where
  renamed : ty' ≡ rename_type (names_of r') ty
  extends : Extends r r'
  known : KnownType r' ty

freshen_type_lem :
    (ty : SeqType) (r : Renaming)
    → SimpleType ty
    → FreshenedType r (freshen_type ty r).1 ty (freshen_type ty r).0
unfolding freshen_type type_entry
freshen_type_lem (var name) r h = elim (Option-cases (lookup name r.type_map)) [
  | inl free ↦ rw free (record {
    renamed = rw lookup-insert_self refl;
    extends = record {
      types = Keeps-insert name (fresh_name name r.counter) r.type_map free;
      rows = λ n v e. e;
    };
    known =
        (fresh_name name r.counter, lookup-insert_self name (fresh_name name r.counter) r.type_map);
  })
  | inr (old, found) ↦
      rw found (record { renamed = rw found; extends = Extends-refl r; known = (old, found) })
]
freshen_type_lem (quotation _) r h = absurd h
freshen_type_lem (closure _ _) r h = absurd h
freshen_type_lem int r h = record { renamed = refl; extends = Extends-refl r; known = tt }
freshen_type_lem _ r h = record { renamed = refl; extends = Extends-refl r; known = tt }

freshen_stack_lem :
    (st : StackType) (r : Renaming)
    → Simple st
    → Freshened r (freshen_stack st r).1 st (freshen_stack st r).0
unfolding freshen_stack row_entry
freshen_stack_lem empty r h = absurd h
freshen_stack_lem (row_var name) r h = elim (Option-cases (lookup name r.row_map)) [
  | inl free ↦ rw free (record {
    renamed = rw lookup-insert_self refl;
    extends = record {
      types = λ n v e. e;
      rows = Keeps-insert name (fresh_name name r.counter) r.row_map free;
    };
    known =
        (fresh_name name r.counter, lookup-insert_self name (fresh_name name r.counter) r.row_map);
  })
  | inr (old, found) ↦
      rw found (record { renamed = rw found; extends = Extends-refl r; known = (old, found) })
]
freshen_stack_lem (cons rest top) r h =
    let below = freshen_stack_lem rest r h.0 in
    let above = freshen_type_lem top (freshen_stack rest r).1 h.1 in
    record {
      renamed =
          ap₂ cons (below.renamed ∙ rename-Extends rest above.extends below.known) above.renamed;
      extends = Extends-trans below.extends above.extends;
      known = (KnownStack-Extends rest above.extends below.known, above.known);
    }

-- The inputs and the outputs of a freshened effect are those of the effect under one map of names.
pub record Renamed (names : Names) (e e' : Effect) : Type 0 where
  pub renamed_inputs : inputs e' ≡ rename names (inputs e)
  pub renamed_outputs : outputs e' ≡ rename names (outputs e)

freshen_effect_from-Renamed :
    (e : Effect) (r : Renaming)
    → Simple (inputs e)
    → Simple (outputs e)
    → (names : Names) × Renamed names e (freshen_effect_from e r).0
unfolding freshen_effect_from
freshen_effect_from-Renamed (effect i o es) r hi ho =
    let ins = freshen_stack_lem i r hi in
    let outs = freshen_stack_lem o (freshen_stack i r).1 ho in
    (
      names_of (freshen_stack o (freshen_stack i r).1).1,
      record {
        renamed_inputs = ins.renamed ∙ rename-Extends i outs.extends ins.known;
        renamed_outputs = outs.renamed;
      },
    )

pub freshen_effect-Renamed :
    (e : Effect) (cells : Cells)
    → Simple (inputs e)
    → Simple (outputs e)
    → (names : Names) × (e' : Effect) × (n : ℕ) × (freshen_effect e cells
        ≡ ok e' (record cells { fresh_counter = n }))
      × Renamed names e e'
unfolding freshen_effect
freshen_effect-Renamed e cells hi ho =
    let start : Renaming = record { type_map = []; row_map = []; counter = cells.fresh_counter } in
    let (names, renamed) = freshen_effect_from-Renamed e start hi ho in
    (names, (freshen_effect_from e start).0, (freshen_effect_from e start).1.counter, refl, renamed)
