-- ===== src/VimLine/Keys.antt =====
-- crates/vim-line/src/vim.rs: the arms of the matches on a key, one constructor for each arm.
use cem.Prelude.{ℕ, Bool, false, ◌&&◌, ◌||◌, ◌==◌, Option, none, some, if◌then◌else◌}
use cem.VimLine.Edit.{
  Key, KeyCode, char, escape, backspace, delete_key, left, right, up, down, home, end, tab, enter,
}
use cem.VimLine.Editor.{Operator, delete, change, yank}

-- The arms of `handle_normal`, in their order.
pub data NormalArm : Type 0 where
  insert_here insert_after insert_at_line_end insert_at_first_non_blank : NormalArm
  open_below open_above start_visual : NormalArm
  to_left to_right to_down to_up to_line_start to_first_non_blank to_line_end : NormalArm
  to_next_word to_previous_word to_word_end to_matching_bracket : NormalArm
  cancel_input delete_under delete_rest change_rest replace_under : NormalArm
  put_after put_before history_back history_on submit_input insert_newline do_nothing : NormalArm
  wait_for_motion : Operator → NormalArm

unfoldable pub normal_char : ℕ → Bool → NormalArm
normal_char c ctrl =
    if c == b'i'
    then insert_here
    else if c == b'a'
    then insert_after
    else if c == b'A'
    then insert_at_line_end
    else if c == b'I'
    then insert_at_first_non_blank
    else if c == b'o'
    then open_below
    else if c == b'O'
    then open_above
    else if c == b'v'
    then start_visual
    else if c == b'h'
    then to_left
    else if c == b'l'
    then to_right
    else if c == b'j'
    then to_down
    else if c == b'k'
    then to_up
    else if c == b'0'
    then to_line_start
    else if c == b'^'
    then to_first_non_blank
    else if c == b'$'
    then to_line_end
    else if c == b'w'
    then to_next_word
    else if c == b'b'
    then to_previous_word
    else if c == b'e'
    then to_word_end
    else if c == b'%'
    then to_matching_bracket
    else if c == b'c' && ctrl
    then cancel_input
    else if c == b'd'
    then wait_for_motion delete
    else if c == b'c'
    then wait_for_motion change
    else if c == b'y'
    then wait_for_motion yank
    else if c == b'x'
    then delete_under
    else if c == b'D'
    then delete_rest
    else if c == b'C'
    then change_rest
    else if c == b'r'
    then replace_under
    else if c == b'p'
    then put_after
    else if c == b'P'
    then put_before
    else do_nothing

abbrev normal_code : KeyCode → Bool → Bool → NormalArm
normal_code (char c) ctrl shift = normal_char c ctrl
normal_code left ctrl shift = to_left
normal_code right ctrl shift = to_right
normal_code home ctrl shift = to_line_start
normal_code end ctrl shift = to_line_end
normal_code up ctrl shift = history_back
normal_code down ctrl shift = history_on
normal_code enter ctrl shift = if shift then insert_newline else submit_input
normal_code escape ctrl shift = do_nothing
normal_code backspace ctrl shift = do_nothing
normal_code delete_key ctrl shift = do_nothing
normal_code tab ctrl shift = do_nothing

unfoldable pub normal_arm : Key → NormalArm
unfolding normal_char
normal_arm key = normal_code key.code key.ctrl key.shift

-- The motions that `handle_operator_pending` and `handle_visual` know.
pub data Motion : Type 0 where
  by_word by_word_back by_word_end by_line_start by_line_end by_first_non_blank : Motion
  by_left by_right by_down by_up : Motion

-- The motion of a key after an operator.
unfoldable pub pending_char : ℕ → Option Motion
pending_char c =
    if c == b'w'
    then some by_word
    else if c == b'b'
    then some by_word_back
    else if c == b'e'
    then some by_word_end
    else if c == b'0'
    then some by_line_start
    else if c == b'$'
    then some by_line_end
    else if c == b'^'
    then some by_first_non_blank
    else if c == b'h'
    then some by_left
    else if c == b'l'
    then some by_right
    else if c == b'j'
    then some by_down
    else if c == b'k'
    then some by_up
    else none

unfoldable pub pending_motion : KeyCode → Option Motion
unfolding pending_char
pending_motion (char c) = pending_char c
pending_motion home = some by_line_start
pending_motion end = some by_line_end
pending_motion left = some by_left
pending_motion right = some by_right
pending_motion _ = none

-- The doubled operator: dd, cc, yy.
abbrev operator_char : Operator → ℕ
operator_char delete = b'd'
operator_char change = b'c'
operator_char yank = b'y'

unfoldable pub is_line_op : Operator → KeyCode → Bool
is_line_op op (char c) = c == operator_char op
is_line_op op _ = false

-- The arms of `handle_visual`.
pub data VisualArm : Type 0 where
  leave stay : VisualArm
  extend : Motion → VisualArm
  operate : Operator → VisualArm

unfoldable pub visual_char : ℕ → VisualArm
visual_char c =
    if c == b'h'
    then extend by_left
    else if c == b'l'
    then extend by_right
    else if c == b'j'
    then extend by_down
    else if c == b'k'
    then extend by_up
    else if c == b'w'
    then extend by_word
    else if c == b'b'
    then extend by_word_back
    else if c == b'e'
    then extend by_word_end
    else if c == b'0'
    then extend by_line_start
    else if c == b'$'
    then extend by_line_end
    else if c == b'd' || c == b'x'
    then operate delete
    else if c == b'c'
    then operate change
    else if c == b'y'
    then operate yank
    else stay

unfoldable pub visual_arm : KeyCode → VisualArm
unfolding visual_char
visual_arm escape = leave
visual_arm (char c) = visual_char c
visual_arm left = extend by_left
visual_arm right = extend by_right
visual_arm home = extend by_line_start
visual_arm end = extend by_line_end
visual_arm _ = stay
