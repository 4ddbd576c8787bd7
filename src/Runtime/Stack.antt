-- ===== src/Runtime/Stack.antt =====
-- crates/core/src/stack_old.rs, the default stack: a pointer one past the top of an array of values.
-- The model is the list of the values from the top down to the base of the strand's stack.
-- A clone of a value is the value. An access below the base is undefined behaviour.
pub mod Shuffle
pub mod Roll
use cem.Prelude.{
  ℕ, zero, suc, ◌+◌, ◌≤◌, List, [], ◌∷◌, ◌++◌, Option, none, some, String, ltb, leb, ◌==◌, length,
  take, drop, get_elem?, if◌then◌else◌,
}
use cem.Runtime.Value.{Value, int}
use cem.Runtime.Word.{is_negative}

abbrev pub Stack : Type 0
Stack = List Value

-- What `set_runtime_error` records.
pub data RuntimeError : Type 0 where
  expected_int_index : RuntimeError
  negative_index : RuntimeError
  exceeds_depth : ℕ → ℕ → RuntimeError
  -- of list.get and list.set
  list_underflow : ℕ → RuntimeError
  expected_list_index : Value → RuntimeError
  expected_list : Value → RuntimeError

pub data Run {ℓ} (A : Type ℓ) : Type ℓ where
  done : A → Run A
  -- a runtime error is set, and the function returns all the same
  flagged : RuntimeError → A → Run A
  panicked : String → Run A
  undefined : Run A

unfoldable pub push : Stack → Value → Stack
push stack v = v ∷ stack

unfoldable pub pop : Stack → Option (Stack × Value)
pop [] = none
pop (v ∷ rest) = some (rest, v)

-- (rest, a, b), where a was below b
unfoldable pub pop_two : Stack → Option (Stack × Value × Value)
pop_two (b ∷ a ∷ rest) = some (rest, a, b)
pop_two (b ∷ []) = none
pop_two [] = none

unfoldable pub peek : Stack → Option Value
peek [] = none
peek (v ∷ rest) = some v

unfoldable pub dup : Stack → Run Stack
dup (a ∷ s) = done (a ∷ a ∷ s)
dup [] = undefined

unfoldable pub drop_op : Stack → Run Stack
drop_op (a ∷ s) = done s
drop_op [] = undefined

unfoldable pub swap : Stack → Run Stack
swap (b ∷ a ∷ s) = done (a ∷ b ∷ s)
swap (b ∷ []) = undefined
swap [] = undefined

unfoldable pub over : Stack → Run Stack
over (b ∷ a ∷ s) = done (a ∷ b ∷ a ∷ s)
over (b ∷ []) = undefined
over [] = undefined

unfoldable pub rot : Stack → Run Stack
rot (c ∷ b ∷ a ∷ s) = done (a ∷ c ∷ b ∷ s)
rot (c ∷ b ∷ []) = undefined
rot (c ∷ []) = undefined
rot [] = undefined

unfoldable pub nip : Stack → Run Stack
nip (b ∷ a ∷ s) = done (b ∷ s)
nip (b ∷ []) = undefined
nip [] = undefined

unfoldable pub tuck : Stack → Run Stack
tuck (b ∷ a ∷ s) = done (b ∷ a ∷ b ∷ s)
tuck (b ∷ []) = undefined
tuck [] = undefined

unfoldable pub two_dup : Stack → Run Stack
two_dup (b ∷ a ∷ s) = done (b ∷ a ∷ b ∷ a ∷ s)
two_dup (b ∷ []) = undefined
two_dup [] = undefined

-- The value at depth n of `sp`, put on top.
abbrev pick_at : Stack → Option Value → Run Stack
pick_at sp (some v) = done (v ∷ sp)
pick_at sp none = undefined

unfoldable pub pick : Stack → Run Stack
pick [] = undefined
pick (int n ∷ sp) =
    if is_negative n
    then flagged negative_index sp
    else if leb (length sp) n
    then flagged (exceeds_depth n (length sp)) sp
    else pick_at sp (get_elem? sp n)
pick (_ ∷ sp) = flagged expected_int_index sp

-- The memmove of `roll`: the value at depth n comes to the top, those above it go down by one.
abbrev pub roll_at : ℕ → Stack → Option Value → Run Stack
roll_at n sp (some v) = done (v ∷ take n sp ++ drop (suc n) sp)
roll_at n sp none = undefined

unfoldable pub roll : Stack → Run Stack
unfolding swap rot
roll [] = undefined
roll (int n ∷ sp) =
    if is_negative n
    then flagged negative_index sp
    else if n == 0
    then done sp
    else if n == 1
    then swap sp
    else if n == 2
    then rot sp
    else if leb (length sp) n
    then flagged (exceeds_depth n (length sp)) sp
    else roll_at n sp (get_elem? sp n)
roll (_ ∷ sp) = flagged expected_int_index sp
