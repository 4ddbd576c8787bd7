-- ===== src/VimLine/Bracket.antt =====
-- crates/vim-line/src/vim.rs: the motion to the matching bracket. The brackets are ASCII, and no byte
-- of a longer character is below 0x80, so the search over characters is one over bytes.
use cem.Prelude.{
  ℕ, ◌+◌, ◌-◌, Option, none, some, [], ◌∷◌, leb, ◌==◌, length, get_elem?, if◌then◌else◌,
}
use mathlib.Core.List.{reverse}
use cem.VimLine.Text.{Text, slice}
use cem.VimLine.Motion.{◌>>=◌}

-- The loop of find_matching_forward, at byte i with `depth` brackets open.
unfoldable pub scan_forward : ℕ → ℕ → Text → ℕ → ℕ → Option ℕ
scan_forward open_byte close_byte [] i depth = none
scan_forward open_byte close_byte (b ∷ bs) i depth =
    let deeper = scan_forward open_byte close_byte bs (i + 1) (depth + 1) in
    let shallower = scan_forward open_byte close_byte bs (i + 1) (depth - 1) in
    let on = scan_forward open_byte close_byte bs (i + 1) depth in
    if b == open_byte
    then deeper
    else if b == close_byte
    then (if depth == 1 then some i else shallower)
    else on

unfoldable pub find_matching_forward : Text → ℕ → ℕ → ℕ → Option (Option ℕ)
unfolding scan_forward
find_matching_forward text cursor open_byte close_byte = do
  after ← slice text (cursor + 1) (length text)
  some (scan_forward open_byte close_byte after (cursor + 1) 1)

-- The loop of find_matching_backward, over the bytes before the cursor, the last first; i is the
-- number of bytes left.
unfoldable pub scan_backward : ℕ → ℕ → Text → ℕ → Option ℕ
scan_backward open_byte close_byte [] depth = none
scan_backward open_byte close_byte (b ∷ bs) depth =
    let deeper = scan_backward open_byte close_byte bs (depth + 1) in
    let shallower = scan_backward open_byte close_byte bs (depth - 1) in
    let on = scan_backward open_byte close_byte bs depth in
    if b == close_byte
    then deeper
    else if b == open_byte
    then (if depth == 1 then some (length bs) else shallower)
    else on

unfoldable pub find_matching_backward : Text → ℕ → ℕ → ℕ → Option (Option ℕ)
unfolding scan_backward
find_matching_backward text cursor open_byte close_byte = do
  before ← slice text 0 cursor
  some (scan_backward open_byte close_byte (reverse before) 1)

-- What the loop over the bracket pairs does with the character under the cursor.
pub data Bracket : Type 0 where
  opening closing : ℕ → ℕ → Bracket
  no_bracket : Bracket

unfoldable pub bracket : Option ℕ → Bracket
bracket none = no_bracket
bracket (some c) =
    if c == b'('
    then opening b'(' b')'
    else if c == b')'
    then closing b'(' b')'
    else if c == b'['
    then opening b'[' b']'
    else if c == b']'
    then closing b'[' b']'
    else if c == b'{'
    then opening b'{' b'}'
    else if c == b'}'
    then closing b'{' b'}'
    else if c == b'<'
    then opening b'<' b'>'
    else if c == b'>'
    then closing b'<' b'>'
    else no_bracket

abbrev pub found_at : ℕ → Option ℕ → ℕ
found_at cursor none = cursor
found_at cursor (some pos) = pos

abbrev pub jump : Text → ℕ → Bracket → Option ℕ
jump text cursor no_bracket = some cursor
jump text cursor (opening o c) = do
  found ← find_matching_forward text cursor o c
  some (found_at cursor found)
jump text cursor (closing o c) = do
  found ← find_matching_backward text cursor o c
  some (found_at cursor found)

unfoldable pub move_to_matching_bracket : Text → ℕ → Option ℕ
unfolding bracket find_matching_forward find_matching_backward
move_to_matching_bracket text cursor =
    if leb (length text) cursor
    then some cursor
    else do after ← slice text cursor (length text); jump text cursor (bracket (get_elem? after 0))
