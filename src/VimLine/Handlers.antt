-- ===== src/VimLine/Handlers.antt =====
-- crates/vim-line/src/vim.rs: the handlers of the other modes and `handle_key`.
use cem.Prelude.{
  ℕ, zero, suc, ◌+◌, Bool, true, false, not, ◌&&◌, Option, none, some, [], ◌∷◌, ltb, leb, ◌==◌,
  length, if◌then◌else◌,
}
use cem.VimLine.Text.{Text, newline, encode_utf8}
use cem.VimLine.Edit.{
  EditResult, no_result, with_edit, insert, delete, Key, KeyCode, char, escape, backspace,
  delete_key, left, right, up, down, home, end, tab, enter,
}
use cem.VimLine.Editor.{
  VimLineEditor, Mode, normal, visual, replace_char, operator_pending, Operator, change, yank,
  back_to_boundary, clamp_cursor, selection_range,
}
use cem.VimLine.Motion.{
  ◌>>=◌, move_left, move_right, move_line_start, move_first_non_blank, move_line_end,
  move_line_end_insert, move_word_forward, move_word_backward, move_word_end, move_up, move_down,
}
use cem.VimLine.Change.{
  Reply, at, in_mode, char_end, delete_char, apply_operator, apply_operator_line,
}
use cem.VimLine.Keys
use cem.VimLine.Normal.{moved, handle_normal}

-- A character key of Insert mode: Ctrl+C leaves it, other keys with Ctrl or Alt do nothing.
abbrev insert_char : VimLineEditor → ℕ → Bool → Bool → Reply
insert_char e c ctrl alt =
    if c == b'c' && ctrl
    then (in_mode e normal, no_result)
    else if not ctrl && not alt
    then (at e (e.cursor + length (encode_utf8 c)), with_edit (insert e.cursor (encode_utf8 c)))
    else (e, no_result)

-- Backspace: deletes the character before the cursor.
abbrev insert_backspace : VimLineEditor → Text → ℕ → Reply
insert_backspace e text zero = (e, no_result)
insert_backspace e text (suc pos) =
    let start = back_to_boundary text pos in (at e start, with_edit (delete start (suc pos)))

unfoldable pub insert_code : KeyCode → Bool → Bool → VimLineEditor → Text → Option Reply
insert_code escape ctrl alt e text =
    some (at (in_mode e normal) (move_left text e.cursor), no_result)
insert_code (char c) ctrl alt e text = some (insert_char e c ctrl alt)
insert_code backspace ctrl alt e text = some (insert_backspace e text e.cursor)
insert_code delete_key ctrl alt e text = delete_char e text
insert_code left ctrl alt e text = moved e (some (move_left text e.cursor))
insert_code right ctrl alt e text = moved e (some (move_right text e.cursor))
insert_code up ctrl alt e text = moved e (move_up text e.cursor)
insert_code down ctrl alt e text = moved e (move_down text e.cursor)
insert_code home ctrl alt e text = moved e (move_line_start text e.cursor)
insert_code end ctrl alt e text = moved e (move_line_end_insert text e.cursor)
insert_code enter ctrl alt e text =
    some (at e (e.cursor + 1), with_edit (insert e.cursor (newline ∷ [])))
insert_code tab ctrl alt e text = some (e, no_result)

unfoldable pub handle_insert : VimLineEditor → Key → Text → Option Reply
unfolding insert_code
handle_insert e key text = insert_code key.code key.ctrl key.alt e text

-- `if self.cursor < text.len() { self.cursor += 1 }`
abbrev pub past : Text → ℕ → ℕ
past text cursor = if ltb cursor (length text) then cursor + 1 else cursor

-- Where a motion after an operator takes the cursor: `cw` goes like `ce`.
unfoldable pub pending_target : Operator → Keys.Motion → Text → ℕ → Option ℕ
pending_target Operator.delete Keys.by_word text c = some (move_word_forward text c)
pending_target yank Keys.by_word text c = some (move_word_forward text c)
pending_target change Keys.by_word text c = some (past text (move_word_end text c))
pending_target _ Keys.by_word_back text c = some (move_word_backward text c)
pending_target _ Keys.by_word_end text c = some (past text (move_word_end text c))
pending_target _ Keys.by_line_start text c = move_line_start text c
pending_target _ Keys.by_line_end text c = move_line_end text c
pending_target _ Keys.by_first_non_blank text c = move_first_non_blank text c
pending_target _ Keys.by_left text c = some (move_left text c)
pending_target _ Keys.by_right text c = some (move_right text c)
pending_target _ Keys.by_down text c = move_down text c
pending_target _ Keys.by_up text c = move_up text c

-- The end of `handle_operator_pending`, the cursor having gone from `from` to `to`.
abbrev pub operate_between : Operator → VimLineEditor → ℕ → ℕ → Text → Option Reply
operate_between op e from to text =
    if from == to
    then some (at (in_mode e normal) to, no_result)
    else if ltb from to
    then apply_operator op (at (in_mode e normal) to) from to text
    else apply_operator op (at (in_mode e normal) to) to from text

abbrev pub pending_go : Operator → VimLineEditor → Text → Option Keys.Motion → Option Reply
pending_go op e text none = some (in_mode e normal, no_result)
pending_go op e text (some motion) = do
  target ← pending_target op motion text e.cursor
  operate_between op e e.cursor target text

abbrev pub is_escape : KeyCode → Bool
is_escape escape = true
is_escape _ = false

unfoldable pub handle_operator_pending : Operator → VimLineEditor → Key → Text → Option Reply
unfolding pending_target
handle_operator_pending op e key text =
    if is_escape key.code
    then some (in_mode e normal, no_result)
    else if Keys.is_line_op op key.code
    then apply_operator_line op (in_mode e normal) text
    else pending_go op e text (Keys.pending_motion key.code)

-- Where a motion of Visual mode takes the cursor.
unfoldable pub visual_target : Keys.Motion → Text → ℕ → Option ℕ
visual_target Keys.by_word text c = some (move_word_forward text c)
visual_target Keys.by_word_back text c = some (move_word_backward text c)
visual_target Keys.by_word_end text c = some (move_word_end text c)
visual_target Keys.by_line_start text c = move_line_start text c
visual_target Keys.by_line_end text c = move_line_end text c
visual_target Keys.by_first_non_blank text c = move_first_non_blank text c
visual_target Keys.by_left text c = some (move_left text c)
visual_target Keys.by_right text c = some (move_right text c)
visual_target Keys.by_down text c = move_down text c
visual_target Keys.by_up text c = move_up text c

unfoldable pub run_visual : Keys.VisualArm → VimLineEditor → Text → Option Reply
unfolding visual_target
run_visual Keys.leave e text = some (record e { mode = normal; visual_anchor = none }, no_result)
run_visual Keys.stay e text = some (e, no_result)
run_visual (Keys.extend motion) e text = moved e (visual_target motion text e.cursor)
run_visual (Keys.operate op) e text =
    let range = selection_range e in
    apply_operator op (record e { mode = normal; visual_anchor = none }) range.0 range.1 text

unfoldable pub handle_visual : VimLineEditor → Key → Text → Option Reply
unfolding run_visual
handle_visual e key text = run_visual (Keys.visual_arm key.code) e text

-- A character key after `r`, in the mode that it goes back to.
abbrev replace_with : VimLineEditor → ℕ → Text → Reply
replace_with e c text = if leb (length text) e.cursor then (e, no_result) else (
  e,
  record {
    edits = insert e.cursor (encode_utf8 c) ∷ delete e.cursor (char_end text e.cursor) ∷ [];
    yanked = none;
    action = none;
  },
)

unfoldable pub replace_code : KeyCode → Bool → Bool → VimLineEditor → Text → Reply
replace_code (char c) ctrl alt e text =
    if not ctrl && not alt then replace_with e c text else (e, no_result)
replace_code _ ctrl alt e text = (e, no_result)

unfoldable pub handle_replace_char : VimLineEditor → Key → Text → Option Reply
unfolding replace_code
handle_replace_char e key text =
    some (replace_code key.code key.ctrl key.alt (in_mode e normal) text)

unfoldable pub dispatch : Mode → VimLineEditor → Key → Text → Option Reply
dispatch normal e key text = handle_normal e key text
dispatch Mode.insert e key text = handle_insert e key text
dispatch (operator_pending op) e key text = handle_operator_pending op e key text
dispatch visual e key text = handle_visual e key text
dispatch replace_char e key text = handle_replace_char e key text

-- "Store yanked text"
abbrev pub store_yanked : VimLineEditor → EditResult → Option Text → Reply
store_yanked e result none = (e, result)
store_yanked e result (some y) = (record e { yank_buffer = y }, result)

unfoldable pub handle_key : VimLineEditor → Key → Text → Option Reply
unfolding dispatch clamp_cursor
handle_key e key text = do
  reply ← dispatch e.mode (clamp_cursor e text) key text
  some (store_yanked reply.0 reply.1 reply.1.yanked)
