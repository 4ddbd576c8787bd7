-- ===== src/Compiler/BuiltinTable/Data.antt =====
-- crates/compiler/src/builtins.rs: the signatures of the words on variants, lists, maps, floats, tests and time,
-- one entry for each `builtin!` of the source. The tables of one file join in Compiler/BuiltinTable.antt.
use cem.Prelude.{[], ◌∷◌}
use cem.Prelude.Dict.{Dict}
use cem.Compiler.Types.{bool, float, int, string, symbol, var, Effect}
use cem.Compiler.BuiltinTable.Entry.{entry}

unfoldable pub variant_words : Dict Effect
unfolding entry
variant_words =
    entry "variant.field-count" (var "V" ∷ []) (int ∷ [])
    ∷ entry "variant.tag" (var "V" ∷ []) (symbol ∷ [])
    ∷ entry "variant.field-at" (var "V" ∷ int ∷ []) (var "T" ∷ [])
    ∷ entry "variant.append" (var "V" ∷ var "T" ∷ []) (var "V2" ∷ [])
    ∷ entry "variant.last" (var "V" ∷ []) (var "T" ∷ [])
    ∷ entry "variant.init" (var "V" ∷ []) (var "V2" ∷ [])
    ∷ entry "variant.make-0" (symbol ∷ []) (var "V" ∷ [])
    ∷ entry "variant.make-1" (var "T1" ∷ symbol ∷ []) (var "V" ∷ [])
    ∷ entry "variant.make-2" (var "T1" ∷ var "T2" ∷ symbol ∷ []) (var "V" ∷ [])
    ∷ entry "variant.make-3" (var "T1" ∷ var "T2" ∷ var "T3" ∷ symbol ∷ []) (var "V" ∷ [])
    ∷ entry "variant.make-4" (var "T1" ∷ var "T2" ∷ var "T3" ∷ var "T4" ∷ symbol ∷ [])
        (var "V" ∷ [])
    ∷ []

unfoldable pub wrap_words : Dict Effect
unfolding entry
wrap_words =
    entry "wrap-0" (symbol ∷ []) (var "V" ∷ [])
    ∷ entry "wrap-1" (var "T1" ∷ symbol ∷ []) (var "V" ∷ [])
    ∷ entry "wrap-2" (var "T1" ∷ var "T2" ∷ symbol ∷ []) (var "V" ∷ [])
    ∷ entry "wrap-3" (var "T1" ∷ var "T2" ∷ var "T3" ∷ symbol ∷ []) (var "V" ∷ [])
    ∷ entry "wrap-4" (var "T1" ∷ var "T2" ∷ var "T3" ∷ var "T4" ∷ symbol ∷ []) (var "V" ∷ [])
    ∷ []

unfoldable pub list_words : Dict Effect
unfolding entry
list_words =
    entry "list.make" [] (var "V" ∷ [])
    ∷ entry "list.push" (var "V" ∷ var "T" ∷ []) (var "V" ∷ [])
    ∷ entry "list.get" (var "V" ∷ int ∷ []) (var "T" ∷ bool ∷ [])
    ∷ entry "list.set" (var "V" ∷ int ∷ var "T" ∷ []) (var "V" ∷ bool ∷ [])
    ∷ entry "list.length" (var "V" ∷ []) (int ∷ [])
    ∷ entry "list.empty?" (var "V" ∷ []) (bool ∷ [])
    ∷ []

unfoldable pub map_words : Dict Effect
unfolding entry
map_words =
    entry "map.make" [] (var "M" ∷ [])
    ∷ entry "map.get" (var "M" ∷ var "K" ∷ []) (var "V" ∷ bool ∷ [])
    ∷ entry "map.set" (var "M" ∷ var "K" ∷ var "V" ∷ []) (var "M2" ∷ [])
    ∷ entry "map.has?" (var "M" ∷ var "K" ∷ []) (bool ∷ [])
    ∷ entry "map.remove" (var "M" ∷ var "K" ∷ []) (var "M2" ∷ [])
    ∷ entry "map.keys" (var "M" ∷ []) (var "V" ∷ [])
    ∷ entry "map.values" (var "M" ∷ []) (var "V" ∷ [])
    ∷ entry "map.size" (var "M" ∷ []) (int ∷ [])
    ∷ entry "map.empty?" (var "M" ∷ []) (bool ∷ [])
    ∷ []

unfoldable pub float_words : Dict Effect
unfolding entry
float_words =
    entry "f.add" (float ∷ float ∷ []) (float ∷ [])
    ∷ entry "f.subtract" (float ∷ float ∷ []) (float ∷ [])
    ∷ entry "f.multiply" (float ∷ float ∷ []) (float ∷ [])
    ∷ entry "f.divide" (float ∷ float ∷ []) (float ∷ [])
    ∷ entry "f.+" (float ∷ float ∷ []) (float ∷ [])
    ∷ entry "f.-" (float ∷ float ∷ []) (float ∷ [])
    ∷ entry "f.*" (float ∷ float ∷ []) (float ∷ [])
    ∷ entry "f./" (float ∷ float ∷ []) (float ∷ [])
    ∷ entry "f.=" (float ∷ float ∷ []) (bool ∷ [])
    ∷ entry "f.<" (float ∷ float ∷ []) (bool ∷ [])
    ∷ entry "f.>" (float ∷ float ∷ []) (bool ∷ [])
    ∷ entry "f.<=" (float ∷ float ∷ []) (bool ∷ [])
    ∷ entry "f.>=" (float ∷ float ∷ []) (bool ∷ [])
    ∷ entry "f.<>" (float ∷ float ∷ []) (bool ∷ [])
    ∷ entry "f.eq" (float ∷ float ∷ []) (bool ∷ [])
    ∷ entry "f.lt" (float ∷ float ∷ []) (bool ∷ [])
    ∷ entry "f.gt" (float ∷ float ∷ []) (bool ∷ [])
    ∷ entry "f.lte" (float ∷ float ∷ []) (bool ∷ [])
    ∷ entry "f.gte" (float ∷ float ∷ []) (bool ∷ [])
    ∷ entry "f.neq" (float ∷ float ∷ []) (bool ∷ [])
    ∷ []

unfoldable pub test_and_time_words : Dict Effect
unfolding entry
test_and_time_words =
    entry "test.init" (string ∷ []) []
    ∷ entry "test.finish" [] []
    ∷ entry "test.has-failures" [] (bool ∷ [])
    ∷ entry "test.assert" (bool ∷ []) []
    ∷ entry "test.assert-not" (bool ∷ []) []
    ∷ entry "test.assert-eq" (int ∷ int ∷ []) []
    ∷ entry "test.assert-eq-str" (string ∷ string ∷ []) []
    ∷ entry "test.fail" (string ∷ []) []
    ∷ entry "test.pass-count" [] (int ∷ [])
    ∷ entry "test.fail-count" [] (int ∷ [])
    ∷ entry "time.now" [] (int ∷ [])
    ∷ entry "time.nanos" [] (int ∷ [])
    ∷ entry "time.sleep-ms" (int ∷ []) []
    ∷ entry "son.dump" (var "T" ∷ []) (string ∷ [])
    ∷ entry "son.dump-pretty" (var "T" ∷ []) (string ∷ [])
    ∷ []
