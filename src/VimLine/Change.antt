-- ===== src/VimLine/Change.antt =====
-- crates/vim-line/src/vim.rs: deletions, pastes and operators. `none` is a panic.
use cem.Prelude.{
  ℕ, ◌+◌, ◌-◌, ◌&&◌, Option, none, some, [], ltb, leb, ◌==◌, length, min, if◌then◌else◌,
}
use cem.VimLine.Text.{Text, slice, find_newline}
use cem.VimLine.Edit.{EditResult, no_result, with_edit, edit_and_yank, delete, insert}
use cem.VimLine.Editor.{VimLineEditor, Mode, Operator, change, yank}
use cem.VimLine.Motion.{◌>>=◌, next_boundary, move_left, line_start, line_end, found_or}

-- What a handler returns: the editor and the result of the key.
abbrev pub Reply : Type 0
Reply = VimLineEditor × EditResult

abbrev pub at : VimLineEditor → ℕ → VimLineEditor
at e cursor = record e { cursor = cursor }

abbrev pub in_mode : VimLineEditor → Mode → VimLineEditor
in_mode e mode = record e { mode = mode }

-- The end of the character at the cursor, as `delete_char` and `handle_replace_char` find it.
unfoldable pub char_end : Text → ℕ → ℕ
unfolding next_boundary
char_end text cursor = next_boundary (length text - (cursor + 1)) text (cursor + 1)

unfoldable pub delete_char : VimLineEditor → Text → Option Reply
unfolding char_end move_left
delete_char e text = if leb (length text) e.cursor then some (e, no_result) else do
  let end = char_end text e.cursor
  deleted ← slice text e.cursor end
  some (
    (if leb (length text) end && ltb 0 e.cursor then at e (move_left text e.cursor) else e),
    edit_and_yank (delete e.cursor end) deleted,
  )

unfoldable pub delete_to_end : VimLineEditor → Text → Option Reply
unfolding line_end
delete_to_end e text = do
  end ← line_end text e.cursor
  if leb end e.cursor then some (e, no_result) else do
    deleted ← slice text e.cursor end
    some (e, edit_and_yank (delete e.cursor end) deleted)

-- `text[cursor..].find('\n').map(|i| cursor + i + 1).unwrap_or(text.len())`: past the newline
unfoldable pub line_end_after : Text → ℕ → Option ℕ
line_end_after text cursor = do
  after ← slice text cursor (length text)
  some (found_or (cursor + 1) (length text) (find_newline after))

-- The range of `delete_line`, from the start of the line and its end past the newline.
abbrev pub line_range : Text → ℕ → ℕ → ℕ × ℕ
line_range text start end =
    if start == 0 && end == length text
    then (0, length text)
    else if end == length text && ltb 0 start
    then (start - 1, length text)
    else (start, end)

unfoldable pub delete_line : VimLineEditor → Text → Option Reply
unfolding line_start line_end_after
delete_line e text = do
  line_from ← line_start text e.cursor
  line_to ← line_end_after text e.cursor
  let range = line_range text line_from line_to
  deleted ← slice text range.0 range.1
  some (at e range.0, edit_and_yank (delete range.0 range.1) deleted)

unfoldable pub paste_after : VimLineEditor → Text → Reply
paste_after e text =
    if length e.yank_buffer == 0
    then (e, no_result)
    else let insert_pos = min (e.cursor + 1) (length text) in
      (
        at e (min (insert_pos + length e.yank_buffer - 1) (length text + length e.yank_buffer)),
        with_edit (insert insert_pos e.yank_buffer),
      )

unfoldable pub paste_before : VimLineEditor → Text → Reply
paste_before e text =
    if length e.yank_buffer == 0
    then (e, no_result)
    else let insert_pos = min e.cursor (length text) in
      (
        at e (min (insert_pos + length e.yank_buffer) (length text + length e.yank_buffer)),
        with_edit (insert insert_pos e.yank_buffer),
      )

abbrev pub operated : Operator → VimLineEditor → ℕ → ℕ → Text → Reply
operated Operator.delete e start end affected = (e, edit_and_yank (delete start end) affected)
operated change e start end affected =
    (in_mode e Mode.insert, edit_and_yank (delete start end) affected)
operated yank e start end affected =
    (e, record { edits = []; yanked = some affected; action = none })

unfoldable pub apply_operator : Operator → VimLineEditor → ℕ → ℕ → Text → Option Reply
apply_operator op e start end text = do
  affected ← slice text start end
  some (operated op (record e { yank_buffer = affected; cursor = start }) start end affected)

unfoldable pub apply_operator_line : Operator → VimLineEditor → Text → Option Reply
unfolding delete_line line_start line_end_after
apply_operator_line Operator.delete e text = delete_line e text
apply_operator_line change e text = do
  reply ← delete_line e text
  some (in_mode reply.0 Mode.insert, reply.1)
apply_operator_line yank e text = do
  line_from ← line_start text e.cursor
  line_to ← line_end_after text e.cursor
  line ← slice text line_from line_to
  some (record e { yank_buffer = line }, record { edits = []; yanked = some line; action = none })
