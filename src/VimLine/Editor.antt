-- ===== src/VimLine/Editor.antt =====
-- crates/vim-line/src/vim.rs: the state of the editor.
use cem.Prelude.{ℕ, Option, none, some, [], min, length, if◌then◌else◌, ltb, suc, zero, ◌+◌}
use cem.VimLine.Text.{Text, is_char_boundary}

pub data Operator : Type 0 where
  delete change yank : Operator

pub data Mode : Type 0 where
  normal insert visual replace_char : Mode
  operator_pending : Operator → Mode

pub record VimLineEditor : Type 0 where
  pub cursor : ℕ
  pub mode : Mode
  pub visual_anchor : Option ℕ
  pub yank_buffer : Text

-- VimLineEditor::new
abbrev pub new : VimLineEditor
new = record { cursor = 0; mode = normal; visual_anchor = none; yank_buffer = [] }

unfoldable pub clamp_cursor : VimLineEditor → Text → VimLineEditor
clamp_cursor e text = record e { cursor = min e.cursor (length text) }

-- `while pos > 0 && !text.is_char_boundary(pos) { pos -= 1 }`
unfoldable pub back_to_boundary : Text → ℕ → ℕ
back_to_boundary text zero = zero
back_to_boundary text (suc pos) =
    if is_char_boundary text (suc pos) then suc pos else back_to_boundary text pos

abbrev anchor_or : Option ℕ → ℕ → ℕ
anchor_or none cursor = cursor
anchor_or (some a) cursor = a

-- The selection, ordered; the character under the cursor is part of it.
unfoldable pub selection_range : VimLineEditor → ℕ × ℕ
selection_range e =
    let anchor = anchor_or e.visual_anchor e.cursor in
    if ltb e.cursor anchor then (e.cursor, anchor) else (anchor, e.cursor + 1)

abbrev selection_in : Mode → ℕ × ℕ → Option (ℕ × ℕ)
selection_in visual range = some range
selection_in _ range = none

unfoldable pub selection : VimLineEditor → Option (ℕ × ℕ)
selection e = selection_in e.mode (selection_range e)

unfoldable pub reset : VimLineEditor → VimLineEditor
reset e = record e { cursor = 0; mode = normal; visual_anchor = none }

unfoldable pub set_cursor : VimLineEditor → ℕ → Text → VimLineEditor
unfolding back_to_boundary
set_cursor e pos text =
    let p = min pos (length text) in
    record e { cursor = if is_char_boundary text p then p else back_to_boundary text p }
