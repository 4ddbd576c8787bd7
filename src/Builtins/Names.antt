-- ===== src/Builtins/Names.antt =====
-- The names of the built-in words on integers, Booleans and the stack: BUILTIN_SYMBOLS of
-- crates/compiler/src/codegen/runtime.rs, beside the signatures of crates/compiler/src/builtins.rs.
use cem.Prelude.{
  String, Bool-cases, false, ◌≡◌, refl, inl, inr, Option, some, [], ◌∷◌, str_eq, eq_iff, subst,
}
use cem.Prelude.Dict.{Dict, lookup}
use cem.Compiler.BuiltinTable.{builtin_signature}
use cem.Builtins.{
  Builtin, i_add, i_subtract, i_multiply, i_divide, i_modulo, i_eq, i_lt, i_gt, i_lte, i_gte, i_neq,
  logical_and, logical_or, logical_not, band, bor, bxor, shl, shr, bnot, popcount, clz, ctz,
  int_bits, dup, drop, swap, over, rot, nip, tuck, two_dup, pick, roll, signature,
}

abbrev names : Dict Builtin
names =
    ("i.add", i_add)
    ∷ ("i.subtract", i_subtract)
    ∷ ("i.multiply", i_multiply)
    ∷ ("i.divide", i_divide)
    ∷ ("i.modulo", i_modulo)
    ∷ ("i.+", i_add)
    ∷ ("i.-", i_subtract)
    ∷ ("i.*", i_multiply)
    ∷ ("i./", i_divide)
    ∷ ("i.%", i_modulo)
    ∷ ("i.=", i_eq)
    ∷ ("i.<", i_lt)
    ∷ ("i.>", i_gt)
    ∷ ("i.<=", i_lte)
    ∷ ("i.>=", i_gte)
    ∷ ("i.<>", i_neq)
    ∷ ("i.eq", i_eq)
    ∷ ("i.lt", i_lt)
    ∷ ("i.gt", i_gt)
    ∷ ("i.lte", i_lte)
    ∷ ("i.gte", i_gte)
    ∷ ("i.neq", i_neq)
    ∷ ("and", logical_and)
    ∷ ("or", logical_or)
    ∷ ("not", logical_not)
    ∷ ("band", band)
    ∷ ("bor", bor)
    ∷ ("bxor", bxor)
    ∷ ("bnot", bnot)
    ∷ ("shl", shl)
    ∷ ("shr", shr)
    ∷ ("popcount", popcount)
    ∷ ("clz", clz)
    ∷ ("ctz", ctz)
    ∷ ("int-bits", int_bits)
    ∷ ("dup", dup)
    ∷ ("swap", swap)
    ∷ ("over", over)
    ∷ ("rot", rot)
    ∷ ("nip", nip)
    ∷ ("tuck", tuck)
    ∷ ("2dup", two_dup)
    ∷ ("drop", drop)
    ∷ ("pick", pick)
    ∷ ("roll", roll)
    ∷ []

unfoldable pub builtin_named : String → Option Builtin
unfolding lookup
builtin_named name = lookup name names

-- The type checker finds the signature of the word under its name, and none of its special cases.
abbrev pub IsNamed : String → Builtin → Type 0
IsNamed name w =
    (builtin_signature name ≡ some (signature w))
    × (str_eq name ">aux" ≡ false)
    × (str_eq name "aux>" ≡ false)
    × (str_eq name "call" ≡ false)
    × (str_eq name "strand.spawn" ≡ false)

abbrev AllNamed : Dict Builtin → Type 0
AllNamed [] = Unit
AllNamed ((name, w) ∷ entries) = IsNamed name w × AllNamed entries

some-injective : {v w : Builtin} → some v ≡ some w → v ≡ w
some-injective h = cc

lookup-IsNamed :
    (entries : Dict Builtin)
    → AllNamed entries
    → (name : String) {w : Builtin} → lookup name entries ≡ some w
    → IsNamed name w
unfolding lookup
lookup-IsNamed [] all name h = cc
lookup-IsNamed ((key, v) ∷ entries) all name {w} h = elim (Bool-cases (str_eq key name)) [
  | inl hit ↦
      let found : some v ≡ some w = rw hit at h in
      subst (λ w. IsNamed name w) (some-injective found)
        (subst (λ n. IsNamed n v) ((eq_iff key name).0 hit) all.0)
  | inr miss ↦ lookup-IsNamed entries all.1 name (rw miss at h)
]

named-IsNamed : AllNamed names
unfolding builtin_signature signature
named-IsNamed = (
  (refl, refl, refl, refl, refl),
  (
    (refl, refl, refl, refl, refl),
    (
      (refl, refl, refl, refl, refl),
      (
        (refl, refl, refl, refl, refl),
        (
          (refl, refl, refl, refl, refl),
          (
            (refl, refl, refl, refl, refl),
            (
              (refl, refl, refl, refl, refl),
              (
                (refl, refl, refl, refl, refl),
                (
                  (refl, refl, refl, refl, refl),
                  (
                    (refl, refl, refl, refl, refl),
                    (
                      (refl, refl, refl, refl, refl),
                      (
                        (refl, refl, refl, refl, refl),
                        (
                          (refl, refl, refl, refl, refl),
                          (
                            (refl, refl, refl, refl, refl),
                            (
                              (refl, refl, refl, refl, refl),
                              (
                                (refl, refl, refl, refl, refl),
                                (
                                  (refl, refl, refl, refl, refl),
                                  (
                                    (refl, refl, refl, refl, refl),
                                    (
                                      (refl, refl, refl, refl, refl),
                                      (
                                        (refl, refl, refl, refl, refl),
                                        (
                                          (refl, refl, refl, refl, refl),
                                          (
                                            (refl, refl, refl, refl, refl),
                                            (
                                              (refl, refl, refl, refl, refl),
                                              (
                                                (refl, refl, refl, refl, refl),
                                                (
                                                  (refl, refl, refl, refl, refl),
                                                  (
                                                    (refl, refl, refl, refl, refl),
                                                    (
                                                      (refl, refl, refl, refl, refl),
                                                      (
                                                        (refl, refl, refl, refl, refl),
                                                        (
                                                          (refl, refl, refl, refl, refl),
                                                          (
                                                            (refl, refl, refl, refl, refl),
                                                            (
                                                            (refl, refl, refl, refl, refl),
                                                            (
                                                            (refl, refl, refl, refl, refl),
                                                            (
                                                            (refl, refl, refl, refl, refl),
                                                            (
                                                            (refl, refl, refl, refl, refl),
                                                            (
                                                            (refl, refl, refl, refl, refl),
                                                            (
                                                            (refl, refl, refl, refl, refl),
                                                            (
                                                            (refl, refl, refl, refl, refl),
                                                            (
                                                            (refl, refl, refl, refl, refl),
                                                            (
                                                            (refl, refl, refl, refl, refl),
                                                            (
                                                            (refl, refl, refl, refl, refl),
                                                            (
                                                            (refl, refl, refl, refl, refl),
                                                            (
                                                            (refl, refl, refl, refl, refl),
                                                            (
                                                            (refl, refl, refl, refl, refl),
                                                            (
                                                            (refl, refl, refl, refl, refl),
                                                            ((refl, refl, refl, refl, refl), tt),
                                                            ),
                                                            ),
                                                            ),
                                                            ),
                                                            ),
                                                            ),
                                                            ),
                                                            ),
                                                            ),
                                                            ),
                                                            ),
                                                            ),
                                                            ),
                                                            ),
                                                          ),
                                                        ),
                                                      ),
                                                    ),
                                                  ),
                                                ),
                                              ),
                                            ),
                                          ),
                                        ),
                                      ),
                                    ),
                                  ),
                                ),
                              ),
                            ),
                          ),
                        ),
                      ),
                    ),
                  ),
                ),
              ),
            ),
          ),
        ),
      ),
    ),
  ),
)

pub builtin_named-IsNamed :
    (name : String) {w : Builtin} → builtin_named name ≡ some w → IsNamed name w
unfolding builtin_named
builtin_named-IsNamed name h = lookup-IsNamed names named-IsNamed name h
