-- ===== src/VimLine/Edit.antt =====
-- crates/vim-line/src/lib.rs: keys, edits, actions and the result of a key.
use cem.Prelude.{
  ℕ, Bool, ◌&&◌, Option, none, some, List, [], ◌∷◌, ◌++◌, leb, length, take, drop, if◌then◌else◌,
}
use cem.VimLine.Text.{Text, is_char_boundary}

pub data Action : Type 0 where
  submit history_prev history_next cancel : Action

pub data TextEdit : Type 0 where
  delete : ℕ → ℕ → TextEdit
  insert : ℕ → Text → TextEdit

pub record EditResult : Type 0 where
  pub edits : List TextEdit
  pub yanked : Option Text
  pub action : Option Action

-- EditResult::none and EditResult::cursor_only
abbrev pub no_result : EditResult
no_result = record { edits = []; yanked = none; action = none }

-- EditResult::action
abbrev pub with_action : Action → EditResult
with_action a = record { edits = []; yanked = none; action = some a }

-- EditResult::edit
abbrev pub with_edit : TextEdit → EditResult
with_edit t = record { edits = t ∷ []; yanked = none; action = none }

-- EditResult::edit_and_yank
abbrev pub edit_and_yank : TextEdit → Text → EditResult
edit_and_yank t y = record { edits = t ∷ []; yanked = some y; action = none }

-- TextEdit::apply: `replace_range` and `insert_str` panic out of range or inside a character.
unfoldable pub apply : TextEdit → Text → Option Text
apply (delete start end) s =
    if leb start end && leb end (length s) && is_char_boundary s start && is_char_boundary s end
    then some (take start s ++ drop end s)
    else none
apply (insert at text) s =
    if leb at (length s) && is_char_boundary s at
    then some (take at s ++ text ++ drop at s)
    else none

pub data KeyCode : Type 0 where
  char : ℕ → KeyCode
  escape backspace delete_key left right up down home end tab enter : KeyCode

pub record Key : Type 0 where
  pub code : KeyCode
  pub ctrl : Bool
  pub alt : Bool
  pub shift : Bool
