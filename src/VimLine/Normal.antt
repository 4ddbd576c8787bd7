-- ===== src/VimLine/Normal.antt =====
-- crates/vim-line/src/vim.rs: `handle_normal`.
use cem.Prelude.{ℕ, ◌+◌, Option, none, some, [], ◌∷◌}
use cem.VimLine.Text.{Text, newline}
use cem.VimLine.Edit.{
  submit, history_prev, history_next, cancel, no_result, with_action, with_edit, insert, Key,
}
use cem.VimLine.Editor.{VimLineEditor, Mode, visual, replace_char, operator_pending}
use cem.VimLine.Motion.{
  ◌>>=◌, move_left, move_right, move_line_start, move_first_non_blank, move_line_end,
  move_line_end_insert, move_word_forward, move_word_backward, move_word_end, move_up, move_down,
}
use cem.VimLine.Bracket.{move_to_matching_bracket}
use cem.VimLine.Change.{Reply, at, in_mode, delete_char, delete_to_end, paste_after, paste_before}
use cem.VimLine.Keys

-- A motion's new cursor, in the editor as it is.
abbrev pub moved : VimLineEditor → Option ℕ → Option Reply
moved e none = none
moved e (some cursor) = some (at e cursor, no_result)

-- A newline at `pos`, in Insert mode, with the cursor behind it or on it.
abbrev pub break_line : VimLineEditor → ℕ → ℕ → Reply
break_line e pos cursor = (at (in_mode e Mode.insert) cursor, with_edit (insert pos (newline ∷ [])))

unfoldable pub run_normal : Keys.NormalArm → VimLineEditor → Text → Option Reply
run_normal Keys.insert_here e text = some (in_mode e Mode.insert, no_result)
run_normal Keys.insert_after e text =
    some (at (in_mode e Mode.insert) (move_right text e.cursor), no_result)
run_normal Keys.insert_at_line_end e text =
    moved (in_mode e Mode.insert) (move_line_end_insert text e.cursor)
run_normal Keys.insert_at_first_non_blank e text =
    moved (in_mode e Mode.insert) (move_first_non_blank text e.cursor)
run_normal Keys.open_below e text = do
  pos ← move_line_end text e.cursor
  some (break_line e pos (pos + 1))
run_normal Keys.open_above e text = do
  pos ← move_line_start text e.cursor
  some (break_line e pos pos)
run_normal Keys.start_visual e text =
    some (record e { mode = visual; visual_anchor = some e.cursor }, no_result)
run_normal Keys.to_left e text = moved e (some (move_left text e.cursor))
run_normal Keys.to_right e text = moved e (some (move_right text e.cursor))
run_normal Keys.to_down e text = moved e (move_down text e.cursor)
run_normal Keys.to_up e text = moved e (move_up text e.cursor)
run_normal Keys.to_line_start e text = moved e (move_line_start text e.cursor)
run_normal Keys.to_first_non_blank e text = moved e (move_first_non_blank text e.cursor)
run_normal Keys.to_line_end e text = moved e (move_line_end text e.cursor)
run_normal Keys.to_next_word e text = moved e (some (move_word_forward text e.cursor))
run_normal Keys.to_previous_word e text = moved e (some (move_word_backward text e.cursor))
run_normal Keys.to_word_end e text = moved e (some (move_word_end text e.cursor))
run_normal Keys.to_matching_bracket e text = moved e (move_to_matching_bracket text e.cursor)
run_normal Keys.cancel_input e text = some (e, with_action cancel)
run_normal (Keys.wait_for_motion op) e text = some (in_mode e (operator_pending op), no_result)
run_normal Keys.delete_under e text = delete_char e text
run_normal Keys.delete_rest e text = delete_to_end e text
run_normal Keys.change_rest e text = delete_to_end (in_mode e Mode.insert) text
run_normal Keys.replace_under e text = some (in_mode e replace_char, no_result)
run_normal Keys.put_after e text = some (paste_after e text)
run_normal Keys.put_before e text = some (paste_before e text)
run_normal Keys.history_back e text = some (e, with_action history_prev)
run_normal Keys.history_on e text = some (e, with_action history_next)
run_normal Keys.submit_input e text = some (e, with_action submit)
run_normal Keys.insert_newline e text = some (break_line e e.cursor (e.cursor + 1))
run_normal Keys.do_nothing e text = some (e, no_result)

unfoldable pub handle_normal : VimLineEditor → Key → Text → Option Reply
unfolding run_normal
handle_normal e key text = run_normal (Keys.normal_arm key) e text
