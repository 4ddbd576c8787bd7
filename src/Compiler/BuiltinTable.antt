-- ===== src/Compiler/BuiltinTable.antt =====
-- crates/compiler/src/builtins.rs: the table of the signatures of all built-in words. The source builds
-- a HashMap; no name is inserted twice, so the order of the entries does not matter.
mod Entry
mod Words
mod System
mod Text
mod Data
mod Control
use cem.Prelude.{Option, String, ◌++◌}
use cem.Prelude.Dict.{Dict, lookup}
use cem.Compiler.Types.{Effect}
use cem.Compiler.BuiltinTable.Entry.{entry}
use cem.Compiler.BuiltinTable.Words.{
  io_words, conversion_words, integer_words, stack_words, channel_words,
}
use cem.Compiler.BuiltinTable.System.{network_words, os_words, signal_words, terminal_words}
use cem.Compiler.BuiltinTable.Text.{
  string_words, encoding_words, crypto_words, http_words, regex_words, compression_words,
}
use cem.Compiler.BuiltinTable.Data.{
  variant_words, wrap_words, list_words, map_words, float_words, test_and_time_words,
}
use cem.Compiler.BuiltinTable.Control.{
  file_for_each_line, control_words, constructors, combinators, stack_dump,
}

unfoldable pub builtin_signatures : Dict Effect
unfolding io_words conversion_words integer_words stack_words channel_words network_words os_words
    signal_words terminal_words string_words encoding_words crypto_words http_words regex_words
    compression_words variant_words wrap_words list_words map_words float_words test_and_time_words
    file_for_each_line control_words constructors combinators stack_dump
builtin_signatures =
    io_words ++ file_for_each_line ++ conversion_words ++ integer_words ++ stack_words
    ++ channel_words ++ control_words ++ network_words ++ os_words ++ signal_words ++ terminal_words
    ++ string_words ++ encoding_words ++ crypto_words ++ http_words ++ regex_words
    ++ compression_words ++ variant_words ++ wrap_words ++ constructors ++ list_words ++ combinators
    ++ map_words ++ float_words ++ test_and_time_words ++ stack_dump

unfoldable pub builtin_signature : String → Option Effect
unfolding lookup builtin_signatures
builtin_signature name = lookup name builtin_signatures
