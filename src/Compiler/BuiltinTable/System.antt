-- ===== src/Compiler/BuiltinTable/System.antt =====
-- crates/compiler/src/builtins.rs: the signatures of the words on the network, the operating system, signals and the terminal,
-- one entry for each `builtin!` of the source. The tables of one file join in Compiler/BuiltinTable.antt.
use cem.Prelude.{[], ◌∷◌}
use cem.Prelude.Dict.{Dict}
use cem.Compiler.Types.{bool, int, string, Effect}
use cem.Compiler.BuiltinTable.Entry.{entry}

unfoldable pub network_words : Dict Effect
unfolding entry
network_words =
    entry "tcp.listen" (int ∷ []) (int ∷ bool ∷ [])
    ∷ entry "tcp.accept" (int ∷ []) (int ∷ bool ∷ [])
    ∷ entry "tcp.read" (int ∷ []) (string ∷ bool ∷ [])
    ∷ entry "tcp.write" (string ∷ int ∷ []) (bool ∷ [])
    ∷ entry "tcp.close" (int ∷ []) (bool ∷ [])
    ∷ []

unfoldable pub os_words : Dict Effect
unfolding entry
os_words =
    entry "os.getenv" (string ∷ []) (string ∷ bool ∷ [])
    ∷ entry "os.home-dir" [] (string ∷ bool ∷ [])
    ∷ entry "os.current-dir" [] (string ∷ bool ∷ [])
    ∷ entry "os.path-exists" (string ∷ []) (bool ∷ [])
    ∷ entry "os.path-is-file" (string ∷ []) (bool ∷ [])
    ∷ entry "os.path-is-dir" (string ∷ []) (bool ∷ [])
    ∷ entry "os.path-join" (string ∷ string ∷ []) (string ∷ [])
    ∷ entry "os.path-parent" (string ∷ []) (string ∷ bool ∷ [])
    ∷ entry "os.path-filename" (string ∷ []) (string ∷ bool ∷ [])
    ∷ entry "os.exit" (int ∷ []) []
    ∷ entry "os.name" [] (string ∷ [])
    ∷ entry "os.arch" [] (string ∷ [])
    ∷ []

unfoldable pub signal_words : Dict Effect
unfolding entry
signal_words =
    entry "signal.trap" (int ∷ []) []
    ∷ entry "signal.received?" (int ∷ []) (bool ∷ [])
    ∷ entry "signal.pending?" (int ∷ []) (bool ∷ [])
    ∷ entry "signal.default" (int ∷ []) []
    ∷ entry "signal.ignore" (int ∷ []) []
    ∷ entry "signal.clear" (int ∷ []) []
    ∷ entry "signal.SIGINT" [] (int ∷ [])
    ∷ entry "signal.SIGTERM" [] (int ∷ [])
    ∷ entry "signal.SIGHUP" [] (int ∷ [])
    ∷ entry "signal.SIGPIPE" [] (int ∷ [])
    ∷ entry "signal.SIGUSR1" [] (int ∷ [])
    ∷ entry "signal.SIGUSR2" [] (int ∷ [])
    ∷ entry "signal.SIGCHLD" [] (int ∷ [])
    ∷ entry "signal.SIGALRM" [] (int ∷ [])
    ∷ entry "signal.SIGCONT" [] (int ∷ [])
    ∷ []

unfoldable pub terminal_words : Dict Effect
unfolding entry
terminal_words =
    entry "terminal.raw-mode" (bool ∷ []) []
    ∷ entry "terminal.read-char" [] (int ∷ [])
    ∷ entry "terminal.read-char?" [] (int ∷ [])
    ∷ entry "terminal.width" [] (int ∷ [])
    ∷ entry "terminal.height" [] (int ∷ [])
    ∷ entry "terminal.flush" [] []
    ∷ []
