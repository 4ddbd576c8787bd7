-- ===== src/Compiler/BuiltinTable/Words.antt =====
-- crates/compiler/src/builtins.rs: the signatures of the words on input and output, numbers, the stack and channels,
-- one entry for each `builtin!` of the source. The tables of one file join in Compiler/BuiltinTable.antt.
use cem.Prelude.{[], ◌∷◌}
use cem.Prelude.Dict.{Dict}
use cem.Compiler.Types.{bool, channel, float, int, string, symbol, var, Effect}
use cem.Compiler.BuiltinTable.Entry.{entry}

unfoldable pub io_words : Dict Effect
unfolding entry
io_words =
    entry "io.write" (string ∷ []) []
    ∷ entry "io.write-line" (string ∷ []) []
    ∷ entry "io.read-line" [] (string ∷ bool ∷ [])
    ∷ entry "io.read-line+" [] (string ∷ int ∷ [])
    ∷ entry "io.read-n" (int ∷ []) (string ∷ int ∷ [])
    ∷ entry "args.count" [] (int ∷ [])
    ∷ entry "args.at" (int ∷ []) (string ∷ [])
    ∷ entry "file.slurp" (string ∷ []) (string ∷ bool ∷ [])
    ∷ entry "file.exists?" (string ∷ []) (bool ∷ [])
    ∷ entry "file.spit" (string ∷ string ∷ []) (bool ∷ [])
    ∷ entry "file.append" (string ∷ string ∷ []) (bool ∷ [])
    ∷ entry "file.delete" (string ∷ []) (bool ∷ [])
    ∷ entry "file.size" (string ∷ []) (int ∷ bool ∷ [])
    ∷ entry "dir.exists?" (string ∷ []) (bool ∷ [])
    ∷ entry "dir.make" (string ∷ []) (bool ∷ [])
    ∷ entry "dir.delete" (string ∷ []) (bool ∷ [])
    ∷ entry "dir.list" (string ∷ []) (var "V" ∷ bool ∷ [])
    ∷ []

unfoldable pub conversion_words : Dict Effect
unfolding entry
conversion_words =
    entry "int->string" (int ∷ []) (string ∷ [])
    ∷ entry "int->float" (int ∷ []) (float ∷ [])
    ∷ entry "float->int" (float ∷ []) (int ∷ [])
    ∷ entry "float->string" (float ∷ []) (string ∷ [])
    ∷ entry "string->int" (string ∷ []) (int ∷ bool ∷ [])
    ∷ entry "string->float" (string ∷ []) (float ∷ bool ∷ [])
    ∷ entry "char->string" (int ∷ []) (string ∷ [])
    ∷ entry "symbol->string" (symbol ∷ []) (string ∷ [])
    ∷ entry "string->symbol" (string ∷ []) (symbol ∷ [])
    ∷ []

unfoldable pub integer_words : Dict Effect
unfolding entry
integer_words =
    entry "i.add" (int ∷ int ∷ []) (int ∷ [])
    ∷ entry "i.subtract" (int ∷ int ∷ []) (int ∷ [])
    ∷ entry "i.multiply" (int ∷ int ∷ []) (int ∷ [])
    ∷ entry "i.+" (int ∷ int ∷ []) (int ∷ [])
    ∷ entry "i.-" (int ∷ int ∷ []) (int ∷ [])
    ∷ entry "i.*" (int ∷ int ∷ []) (int ∷ [])
    ∷ entry "i.divide" (int ∷ int ∷ []) (int ∷ bool ∷ [])
    ∷ entry "i.modulo" (int ∷ int ∷ []) (int ∷ bool ∷ [])
    ∷ entry "i./" (int ∷ int ∷ []) (int ∷ bool ∷ [])
    ∷ entry "i.%" (int ∷ int ∷ []) (int ∷ bool ∷ [])
    ∷ entry "i.=" (int ∷ int ∷ []) (bool ∷ [])
    ∷ entry "i.<" (int ∷ int ∷ []) (bool ∷ [])
    ∷ entry "i.>" (int ∷ int ∷ []) (bool ∷ [])
    ∷ entry "i.<=" (int ∷ int ∷ []) (bool ∷ [])
    ∷ entry "i.>=" (int ∷ int ∷ []) (bool ∷ [])
    ∷ entry "i.<>" (int ∷ int ∷ []) (bool ∷ [])
    ∷ entry "i.eq" (int ∷ int ∷ []) (bool ∷ [])
    ∷ entry "i.lt" (int ∷ int ∷ []) (bool ∷ [])
    ∷ entry "i.gt" (int ∷ int ∷ []) (bool ∷ [])
    ∷ entry "i.lte" (int ∷ int ∷ []) (bool ∷ [])
    ∷ entry "i.gte" (int ∷ int ∷ []) (bool ∷ [])
    ∷ entry "i.neq" (int ∷ int ∷ []) (bool ∷ [])
    ∷ entry "and" (bool ∷ bool ∷ []) (bool ∷ [])
    ∷ entry "or" (bool ∷ bool ∷ []) (bool ∷ [])
    ∷ entry "not" (bool ∷ []) (bool ∷ [])
    ∷ entry "band" (int ∷ int ∷ []) (int ∷ [])
    ∷ entry "bor" (int ∷ int ∷ []) (int ∷ [])
    ∷ entry "bxor" (int ∷ int ∷ []) (int ∷ [])
    ∷ entry "shl" (int ∷ int ∷ []) (int ∷ [])
    ∷ entry "shr" (int ∷ int ∷ []) (int ∷ [])
    ∷ entry "bnot" (int ∷ []) (int ∷ [])
    ∷ entry "popcount" (int ∷ []) (int ∷ [])
    ∷ entry "clz" (int ∷ []) (int ∷ [])
    ∷ entry "ctz" (int ∷ []) (int ∷ [])
    ∷ entry "int-bits" [] (int ∷ [])
    ∷ []

unfoldable pub stack_words : Dict Effect
unfolding entry
stack_words =
    entry "dup" (var "T" ∷ []) (var "T" ∷ var "T" ∷ [])
    ∷ entry "drop" (var "T" ∷ []) []
    ∷ entry "swap" (var "T" ∷ var "U" ∷ []) (var "U" ∷ var "T" ∷ [])
    ∷ entry "over" (var "T" ∷ var "U" ∷ []) (var "T" ∷ var "U" ∷ var "T" ∷ [])
    ∷ entry "rot" (var "T" ∷ var "U" ∷ var "V" ∷ []) (var "U" ∷ var "V" ∷ var "T" ∷ [])
    ∷ entry "nip" (var "T" ∷ var "U" ∷ []) (var "U" ∷ [])
    ∷ entry "tuck" (var "T" ∷ var "U" ∷ []) (var "U" ∷ var "T" ∷ var "U" ∷ [])
    ∷ entry "2dup" (var "T" ∷ var "U" ∷ []) (var "T" ∷ var "U" ∷ var "T" ∷ var "U" ∷ [])
    ∷ entry "3drop" (var "T" ∷ var "U" ∷ var "V" ∷ []) []
    ∷ entry "pick" (var "T" ∷ int ∷ []) (var "T" ∷ var "T" ∷ [])
    ∷ entry "roll" (var "T" ∷ int ∷ []) (var "T" ∷ [])
    ∷ entry ">aux" (var "T" ∷ []) []
    ∷ entry "aux>" [] (var "T" ∷ [])
    ∷ []

unfoldable pub channel_words : Dict Effect
unfolding entry
channel_words =
    entry "chan.make" [] (channel ∷ [])
    ∷ entry "chan.send" (var "T" ∷ channel ∷ []) (bool ∷ [])
    ∷ entry "chan.receive" (channel ∷ []) (var "T" ∷ bool ∷ [])
    ∷ entry "chan.close" (channel ∷ []) []
    ∷ entry "chan.yield" [] []
    ∷ []
