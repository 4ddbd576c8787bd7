-- ===== src/Tests/Editing.antt =====
-- Examples for the line editor.
use cem.Prelude.{
  ◌<◌, zero, Bool, ltb, ◌&&◌, ℕ, suc, ◌+◌, ◌≤◌, ◌≡◌, ◌≢◌, ◌↔◌, refl, true, false, none, some, [],
  ◌∷◌, ◌++◌, arith, min, length, get_elem?, take, drop,
}
use cem.VimLine.Text.{
  newline, find_newline, Text, slice, is_char_boundary, is_ascii_whitespace, encode_utf8,
}
use cem.VimLine.Edit.{insert, Key, char, escape, TextEdit, delete, apply}
use cem.VimLine.Editor.{Mode, VimLineEditor, Operator, visual, normal, new, set_cursor}
use cem.VimLine.Motion.{move_left, move_right, line_end, is_word_byte, byte_is, move_word_forward}
use cem.VimLine.Bracket.{find_matching_forward}
use cem.VimLine.Change.{Reply, apply_operator, paste_before, char_end}
use cem.VimLine.Keys
use cem.VimLine.Handlers.{handle_key, handle_replace_char}
use cem.VimLine.Boundaries.{
  move_left-move_right, IsBoundary, NoBoundaryBetween, set_cursor-IsBoundary,
}
use cem.VimLine.Modes.{handle_key-escape}
use cem.VimLine.Undo.{paste_before-apply_operator}
use cem.VimLine.Replace.{
  apply_in_order, apply_in_reverse, handle_replace_char-in_reverse, handle_replace_char-in_order,
}
use cem.VimLine.OpenLine.{handle_key-open_below}
use cem.VimLine.Ascii.{IsAscii}
use cem.VimLine.Answered.{Answered}
use cem.VimLine.Total.{handle_key-Answered}
use cem.VimLine.Visual.{next_is_boundary, handle_key-visual_panic}
use cem.VimLine.Words.{Spans, move_word_forward_lem}
use cem.VimLine.Matching.{Matches}
use cem.VimLine.BracketSearch.{find_matching_forward_lem}

-- "(ab) c"
abbrev line : Text
line = b'(' ∷ b'a' ∷ b'b' ∷ b')' ∷ b' ' ∷ b'c' ∷ []

-- An e with an acute accent, and an x: two characters, three bytes
abbrev accented : Text
accented = 0xC3 ∷ 0xA9 ∷ b'x' ∷ []

abbrev press : ℕ → Key
press c = record { code = char c; ctrl = false; alt = false; shift = false }

abbrev at_two : VimLineEditor
at_two = record { cursor = 2; mode = normal; visual_anchor = none; yank_buffer = [] }

delete_is_not_yank : Operator.delete ≢ Operator.yank
delete_is_not_yank h = cc

paste_before-apply_operator_example :
    (r : Reply) × (left : Text) × (undo : TextEdit) × (apply_operator Operator.delete at_two 1 3
        line
      ≡ some r)
    × (r.1.edits ≡ delete 1 3 ∷ [])
    × (apply (delete 1 3) line ≡ some left)
    × ((paste_before r.0 left).1.edits ≡ undo ∷ [])
    × (apply undo left ≡ some line)
unfolding is_char_boundary
paste_before-apply_operator_example =
    paste_before-apply_operator Operator.delete at_two line 1 3 delete_is_not_yank (omega arith)
      (omega arith) refl refl

find_matching_forward_lem_example :
    (find_matching_forward line 0 b'(' b')' ≡ some (some (0 + 1 + 2)))
    ↔ Matches b'(' b')' 1 (drop (0 + 1) line) 2
unfolding is_char_boundary
find_matching_forward_lem_example =
    find_matching_forward_lem line 0 b'(' b')' 2 (ground arith) (omega arith) refl

handle_key-escape_example :
    (r : Reply) × (handle_key at_two
        (record { code = escape; ctrl = false; alt = false; shift = true })
        line
      ≡ some r)
    × (r.0.mode ≡ normal)
    × (r.1.edits ≡ [])
    × (r.0.yank_buffer ≡ at_two.yank_buffer)
handle_key-escape_example = handle_key-escape at_two false false true line

-- `x` yanks the character that it deletes.
abbrev after_x : Reply
after_x = (
  record at_two { yank_buffer = b'b' ∷ [] },
  record { edits = delete 2 3 ∷ []; yanked = some (b'b' ∷ []); action = none },
)

set_cursor-IsBoundary_example :
    IsBoundary accented (set_cursor new 1 accented).cursor
    × ((set_cursor new 1 accented).cursor ≤ min 1 (length accented))
    × NoBoundaryBetween accented (set_cursor new 1 accented).cursor (suc (min 1 (length accented)))
set_cursor-IsBoundary_example = set_cursor-IsBoundary new 1 accented

move_word_forward_lem_example :
    (blank : ℕ) × (1 ≤ blank)
    × (blank ≤ move_word_forward line 1)
    × (move_word_forward line 1 ≤ length line)
    × Spans is_word_byte line 1 blank
    × Spans is_ascii_whitespace line blank (move_word_forward line 1)
    × (byte_is is_word_byte (get_elem? line blank) ≡ false)
    × (byte_is is_ascii_whitespace (get_elem? line (move_word_forward line 1)) ≡ false)
move_word_forward_lem_example = move_word_forward_lem line 1 (omega arith)

handle_replace_char-in_reverse_example :
    (r : Reply) × (handle_replace_char new (press b'e') accented ≡ some r)
    × (apply_in_reverse r.1.edits accented
        ≡ some (
            take new.cursor accented
            ++ encode_utf8 b'e'
            ++ drop (char_end accented new.cursor) accented))
unfolding is_char_boundary
handle_replace_char-in_reverse_example =
    handle_replace_char-in_reverse new b'e' false accented (omega arith) refl

handle_replace_char-in_order_example :
    (r : Reply) × (handle_replace_char at_two (press b'z') line ≡ some r)
    × (apply_in_order r.1.edits line ≡ some line)
unfolding char_end is_char_boundary
handle_replace_char-in_order_example =
    handle_replace_char-in_order at_two b'z' false line (omega arith) (omega arith) refl refl

abbrev selecting : VimLineEditor
selecting = record { cursor = 0; mode = visual; visual_anchor = some 0; yank_buffer = [] }

handle_key-visual_panic_example :
    (handle_key selecting (press b'd') accented ≡ none) ↔ (next_is_boundary accented 0 ≡ false)
unfolding Keys.visual_arm is_char_boundary
handle_key-visual_panic_example =
    handle_key-visual_panic selecting 0 (press b'd') Operator.delete accented refl refl refl
      (omega arith) (omega arith) refl

abbrev all_ascii : Text → Bool
all_ascii [] = true
all_ascii (b ∷ bs) = ltb b 0x80 && all_ascii bs

all_ascii-IsAscii : (text : Text) → all_ascii text ≡ true → IsAscii text
unfolding IsAscii
all_ascii-IsAscii [] h i b found = cc
all_ascii-IsAscii (c ∷ cs) h zero b found = let eq : c ≡ b = cc in ground arith
all_ascii-IsAscii (c ∷ cs) h (suc i) b found = all_ascii-IsAscii cs (ground arith) i b found

in_normal_mode : (op : Operator) → normal ≡ visual → Keys.visual_arm (char b'$') ≢ Keys.operate op
in_normal_mode op h = cc

handle_key-Answered_example : Answered (handle_key at_two (press b'$') line)
handle_key-Answered_example =
    handle_key-Answered at_two (press b'$') line (all_ascii-IsAscii line refl) in_normal_mode

-- The newline goes before the c of "(ab) c".
handle_key-open_below_example :
    (r : Reply) × (pos : ℕ) × (handle_key at_two
        (record { code = char b'o'; ctrl = false; alt = false; shift = false })
        line
      ≡ some r)
    × (r.0.mode ≡ Mode.insert)
    × (r.0.cursor ≡ pos + 1)
    × (r.1.edits ≡ insert pos (newline ∷ []) ∷ [])
    × (pos < 6)
    × IsBoundary line pos
    × NoBoundaryBetween line pos 6
    × (apply (insert pos (newline ∷ [])) line
        ≡ some (take pos line ++ (newline ∷ []) ++ drop pos line))
unfolding line_end slice is_char_boundary find_newline
handle_key-open_below_example =
    handle_key-open_below at_two false false false line 6 refl (omega arith) refl (omega arith)

move_left-move_right_example : move_left accented (move_right accented 0) ≡ 0
unfolding is_char_boundary
move_left-move_right_example = move_left-move_right accented 0 (omega arith) refl
