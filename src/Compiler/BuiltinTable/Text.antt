-- ===== src/Compiler/BuiltinTable/Text.antt =====
-- crates/compiler/src/builtins.rs: the signatures of the words on strings, encodings, cryptography, HTTP, regular expressions and compression,
-- one entry for each `builtin!` of the source. The tables of one file join in Compiler/BuiltinTable.antt.
use cem.Prelude.{[], ◌∷◌}
use cem.Prelude.Dict.{Dict}
use cem.Compiler.Types.{bool, int, string, symbol, var, Effect}
use cem.Compiler.BuiltinTable.Entry.{entry}

unfoldable pub string_words : Dict Effect
unfolding entry
string_words =
    entry "string.concat" (string ∷ string ∷ []) (string ∷ [])
    ∷ entry "string.length" (string ∷ []) (int ∷ [])
    ∷ entry "string.byte-length" (string ∷ []) (int ∷ [])
    ∷ entry "string.char-at" (string ∷ int ∷ []) (int ∷ [])
    ∷ entry "string.substring" (string ∷ int ∷ int ∷ []) (string ∷ [])
    ∷ entry "string.find" (string ∷ string ∷ []) (int ∷ [])
    ∷ entry "string.split" (string ∷ string ∷ []) (var "V" ∷ [])
    ∷ entry "string.contains" (string ∷ string ∷ []) (bool ∷ [])
    ∷ entry "string.starts-with" (string ∷ string ∷ []) (bool ∷ [])
    ∷ entry "string.empty?" (string ∷ []) (bool ∷ [])
    ∷ entry "string.equal?" (string ∷ string ∷ []) (bool ∷ [])
    ∷ entry "symbol.=" (symbol ∷ symbol ∷ []) (bool ∷ [])
    ∷ entry "string.trim" (string ∷ []) (string ∷ [])
    ∷ entry "string.chomp" (string ∷ []) (string ∷ [])
    ∷ entry "string.to-upper" (string ∷ []) (string ∷ [])
    ∷ entry "string.to-lower" (string ∷ []) (string ∷ [])
    ∷ entry "string.json-escape" (string ∷ []) (string ∷ [])
    ∷ []

unfoldable pub encoding_words : Dict Effect
unfolding entry
encoding_words =
    entry "encoding.base64-encode" (string ∷ []) (string ∷ [])
    ∷ entry "encoding.base64-decode" (string ∷ []) (string ∷ bool ∷ [])
    ∷ entry "encoding.base64url-encode" (string ∷ []) (string ∷ [])
    ∷ entry "encoding.base64url-decode" (string ∷ []) (string ∷ bool ∷ [])
    ∷ entry "encoding.hex-encode" (string ∷ []) (string ∷ [])
    ∷ entry "encoding.hex-decode" (string ∷ []) (string ∷ bool ∷ [])
    ∷ []

unfoldable pub crypto_words : Dict Effect
unfolding entry
crypto_words =
    entry "crypto.sha256" (string ∷ []) (string ∷ [])
    ∷ entry "crypto.hmac-sha256" (string ∷ string ∷ []) (string ∷ [])
    ∷ entry "crypto.constant-time-eq" (string ∷ string ∷ []) (bool ∷ [])
    ∷ entry "crypto.random-bytes" (int ∷ []) (string ∷ [])
    ∷ entry "crypto.random-int" (int ∷ int ∷ []) (int ∷ [])
    ∷ entry "crypto.uuid4" [] (string ∷ [])
    ∷ entry "crypto.aes-gcm-encrypt" (string ∷ string ∷ []) (string ∷ bool ∷ [])
    ∷ entry "crypto.aes-gcm-decrypt" (string ∷ string ∷ []) (string ∷ bool ∷ [])
    ∷ entry "crypto.pbkdf2-sha256" (string ∷ string ∷ int ∷ []) (string ∷ bool ∷ [])
    ∷ entry "crypto.ed25519-keypair" [] (string ∷ string ∷ [])
    ∷ entry "crypto.ed25519-sign" (string ∷ string ∷ []) (string ∷ bool ∷ [])
    ∷ entry "crypto.ed25519-verify" (string ∷ string ∷ string ∷ []) (bool ∷ [])
    ∷ []

unfoldable pub http_words : Dict Effect
unfolding entry
http_words =
    entry "http.get" (string ∷ []) (var "M" ∷ [])
    ∷ entry "http.post" (string ∷ string ∷ string ∷ []) (var "M" ∷ [])
    ∷ entry "http.put" (string ∷ string ∷ string ∷ []) (var "M" ∷ [])
    ∷ entry "http.delete" (string ∷ []) (var "M" ∷ [])
    ∷ []

unfoldable pub regex_words : Dict Effect
unfolding entry
regex_words =
    entry "regex.match?" (string ∷ string ∷ []) (bool ∷ [])
    ∷ entry "regex.find" (string ∷ string ∷ []) (string ∷ bool ∷ [])
    ∷ entry "regex.find-all" (string ∷ string ∷ []) (var "V" ∷ bool ∷ [])
    ∷ entry "regex.replace" (string ∷ string ∷ string ∷ []) (string ∷ bool ∷ [])
    ∷ entry "regex.replace-all" (string ∷ string ∷ string ∷ []) (string ∷ bool ∷ [])
    ∷ entry "regex.captures" (string ∷ string ∷ []) (var "V" ∷ bool ∷ [])
    ∷ entry "regex.split" (string ∷ string ∷ []) (var "V" ∷ bool ∷ [])
    ∷ entry "regex.valid?" (string ∷ []) (bool ∷ [])
    ∷ []

unfoldable pub compression_words : Dict Effect
unfolding entry
compression_words =
    entry "compress.gzip" (string ∷ []) (string ∷ bool ∷ [])
    ∷ entry "compress.gzip-level" (string ∷ int ∷ []) (string ∷ bool ∷ [])
    ∷ entry "compress.gunzip" (string ∷ []) (string ∷ bool ∷ [])
    ∷ entry "compress.zstd" (string ∷ []) (string ∷ bool ∷ [])
    ∷ entry "compress.zstd-level" (string ∷ int ∷ []) (string ∷ bool ∷ [])
    ∷ entry "compress.unzstd" (string ∷ []) (string ∷ bool ∷ [])
    ∷ []
