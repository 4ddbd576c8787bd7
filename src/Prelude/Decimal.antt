-- ===== src/Prelude/Decimal.antt =====
-- A natural number as `format!("{}", n)` prints it.
use Prim.Native.Nat.{ℕ, zero, suc, ◌/◌, ◌%◌}
use Prim.Native.String
use Prim.Native.String.{String}
use cem.Prelude.Tests.{ltb, if◌then◌else◌}

unfoldable pub digit : ℕ → String
digit d = String.◌∷◌ (String.char_at "0123456789" d) String.[]

-- Every round drops a digit, so as many rounds as the number are enough.
digits : ℕ → ℕ → String
unfolding digit
digits zero n = digit n
digits (suc rounds) n =
    let high = digits rounds (n / 10) in
    if ltb n 10 then digit n else String.◌++◌ high (digit (n % 10))

unfoldable pub decimal : ℕ → String
unfolding digits
decimal n = digits n n
