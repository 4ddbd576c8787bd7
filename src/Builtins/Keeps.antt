-- ===== src/Builtins/Keeps.antt =====
-- When a binary or a unary operation of the runtime keeps a stack type, by the shape of its result.
use cem.Prelude.{ℕ, ◌^◌, ◌<◌, ◌==◌, String, Bool, true, false, ◌≡◌, [], ◌∷◌, arith, if◌then◌else◌}
use cem.Compiler.Types.{int, bool, StackType, cons, row_var}
use cem.Runtime.Value.{Value}
use cem.Runtime.Stack.{Stack, Run, done}
use cem.Runtime.Arithmetic
use cem.Builtins.Semantics.{Valuation, HasStackType, int_value}

module _ (ρ : Valuation) where
  abbrev pub Keeps : (Stack → Run Stack) → Stack → StackType → Type 0
  Keeps f s out = (s' : Stack) × (f s ≡ done s') × HasStackType ρ out s'

  -- A binary operation on two integers.
  pub keeps_binary :
      (name : String) (f : ℕ → ℕ → Stack → Stack) (out : StackType)
      → ((a b : ℕ) (rest : Stack)
          → a < 2 ^ 64
          → b < 2 ^ 64
          → ρ.row "a" rest
          → HasStackType ρ out (f a b rest))
      → (s : Stack) → HasStackType ρ (cons (cons (row_var "a") int) int) s
      → Keeps (Arithmetic.binary name f) s out
  unfolding Arithmetic.binary
  keeps_binary name f out keep [] h = absurd h
  keeps_binary name f out keep (y ∷ []) h = absurd h.0
  keeps_binary name f out keep (y ∷ x ∷ rest) h =
      let (b, is_b, hb) = int_value y h.1 in
      let (a, is_a, ha) = int_value x h.0.1 in
      (f a b rest, rw (is_a, is_b), keep a b rest ha hb h.0.0)

  pub keeps_unary :
      (name : String) (f : ℕ → Stack → Stack) (out : StackType)
      → ((a : ℕ) (rest : Stack) → a < 2 ^ 64 → ρ.row "a" rest → HasStackType ρ out (f a rest))
      → (s : Stack) → HasStackType ρ (cons (row_var "a") int) s
      → Keeps (Arithmetic.unary name f) s out
  unfolding Arithmetic.unary
  keeps_unary name f out keep [] h = absurd h
  keeps_unary name f out keep (x ∷ rest) h =
      let (a, is_a, ha) = int_value x h.1 in (f a rest, rw is_a, keep a rest ha h.0)

  divided :
      (rest : Stack) (zero? : Bool) (q : ℕ)
      → q < 2 ^ 64
      → ρ.row "a" rest
      → HasStackType ρ (cons (cons (row_var "a") int) bool) (
          if zero?
          then Value.bool false ∷ Value.int 0 ∷ rest
          else Value.bool true ∷ Value.int q ∷ rest)
  divided rest true q hq r = ((r, omega arith), tt)
  divided rest false q hq r = ((r, hq), tt)

  pub shift_in_range : (negative : Bool) (m : ℕ) → m < 2 ^ 64 → (if negative then 0 else m) < 2 ^ 64
  shift_in_range true m h = omega arith
  shift_in_range false m h = h

  pub to_int :
      (name : String) (g : ℕ → ℕ → ℕ)
      → ((a b : ℕ) → a < 2 ^ 64 → b < 2 ^ 64 → g a b < 2 ^ 64)
      → (s : Stack) → HasStackType ρ (cons (cons (row_var "a") int) int) s
      → Keeps
          (Arithmetic.binary name (λ a b rest. Value.int (g a b) ∷ rest))
          s
          (cons (row_var "a") int)
  to_int name g bound =
      keeps_binary name (λ a b rest. Value.int (g a b) ∷ rest) (cons (row_var "a") int)
        (λ a b rest ha hb r. (r, bound a b ha hb))

  pub to_bool :
      (name : String) (g : ℕ → ℕ → Bool) (s : Stack)
      → HasStackType ρ (cons (cons (row_var "a") int) int) s
      → Keeps
          (Arithmetic.binary name (λ a b rest. Value.bool (g a b) ∷ rest))
          s
          (cons (row_var "a") bool)
  to_bool name g =
      keeps_binary name (λ a b rest. Value.bool (g a b) ∷ rest) (cons (row_var "a") bool)
        (λ a b rest ha hb r. (r, tt))

  pub to_int_bool :
      (name : String) (g : ℕ → ℕ → ℕ)
      → ((a b : ℕ) → g a b < 2 ^ 64)
      → (s : Stack) → HasStackType ρ (cons (cons (row_var "a") int) int) s
      → Keeps
          (Arithmetic.binary name (λ a b rest.
            if b == 0
            then Value.bool false ∷ Value.int 0 ∷ rest
            else Value.bool true ∷ Value.int (g a b) ∷ rest))
          s
          (cons (cons (row_var "a") int) bool)
  to_int_bool name g bound =
      keeps_binary name
        (λ a b rest.
          if b == 0
          then Value.bool false ∷ Value.int 0 ∷ rest
          else Value.bool true ∷ Value.int (g a b) ∷ rest)
        (cons (cons (row_var "a") int) bool)
        (λ a b rest ha hb r. divided rest (b == 0) (g a b) (bound a b) r)

  pub from_int :
      (name : String) (g : ℕ → ℕ)
      → ((a : ℕ) → g a < 2 ^ 64)
      → (s : Stack) → HasStackType ρ (cons (row_var "a") int) s
      → Keeps (Arithmetic.unary name (λ a rest. Value.int (g a) ∷ rest)) s (cons (row_var "a") int)
  from_int name g bound =
      keeps_unary name (λ a rest. Value.int (g a) ∷ rest) (cons (row_var "a") int)
        (λ a rest ha r. (r, bound a))
