-- ===== src/VimLine/Motion.antt =====
-- crates/vim-line/src/vim.rs: the motions. A motion reads the text and the cursor and gives the new
-- cursor, the only field that it writes; `none` is a panic in a slice.
use cem.Prelude.{
  ℕ, zero, suc, ◌+◌, ◌-◌, Bool, true, false, not, ◌&&◌, ◌||◌, Option, none, some, [], ◌∷◌, ltb, leb,
  ◌==◌, length, get_elem?, drop, min, if◌then◌else◌,
}
use cem.VimLine.Text.{
  Text, newline, is_char_boundary, slice, find_newline, rfind_newline, is_ascii_whitespace,
  blank_width,
}
use cem.VimLine.Editor.{back_to_boundary}

infixl 5 ◌>>=◌
abbrev pub ◌>>=◌ {ℓ κ} : {A : Type ℓ} {B : Type κ} → Option A → (A → Option B) → Option B
none >>= f = none
some a >>= f = f a

-- `while pos < text.len() && !text.is_char_boundary(pos) { pos += 1 }`, with the bytes left as fuel
unfoldable pub next_boundary : ℕ → Text → ℕ → ℕ
next_boundary zero text pos = pos
next_boundary (suc fuel) text pos =
    if ltb pos (length text) && not (is_char_boundary text pos)
    then next_boundary fuel text (pos + 1)
    else pos

unfoldable pub move_left : Text → ℕ → ℕ
unfolding back_to_boundary
move_left text zero = zero
move_left text (suc pos) = back_to_boundary text pos

unfoldable pub move_right : Text → ℕ → ℕ
unfolding next_boundary
move_right text cursor =
    if ltb cursor (length text)
    then next_boundary (length text - (cursor + 1)) text (cursor + 1)
    else cursor

abbrev pub after_newline : Option ℕ → ℕ
after_newline none = 0
after_newline (some i) = i + 1

-- `text[..cursor].rfind('\n').map(|i| i + 1).unwrap_or(0)`
unfoldable pub line_start : Text → ℕ → Option ℕ
line_start text cursor = do
  before ← slice text 0 cursor
  some (after_newline (rfind_newline before))

abbrev pub found_or : ℕ → ℕ → Option ℕ → ℕ
found_or from other none = other
found_or from other (some i) = from + i

-- `text[cursor..].find('\n').map(|i| cursor + i).unwrap_or(text.len())`
unfoldable pub line_end : Text → ℕ → Option ℕ
line_end text cursor = do
  after ← slice text cursor (length text)
  some (found_or cursor (length text) (find_newline after))

unfoldable pub move_line_start : Text → ℕ → Option ℕ
unfolding line_start
move_line_start text cursor = line_start text cursor

-- The loop over `char_indices`, from byte i on; `fuel` bounds the characters left.
unfoldable pub first_non_blank : ℕ → Text → ℕ → Option ℕ
first_non_blank zero bytes i = none
first_non_blank (suc fuel) [] i = none
first_non_blank (suc fuel) (b ∷ bs) i =
    let w = blank_width (b ∷ bs) in
    if b == newline || w == 0 then some i else first_non_blank fuel (drop w (b ∷ bs)) (i + w)

abbrev pub or_stay : ℕ → Option ℕ → ℕ
or_stay start none = start
or_stay start (some i) = start + i

unfoldable pub move_first_non_blank : Text → ℕ → Option ℕ
unfolding first_non_blank
move_first_non_blank text cursor = do
  start ← move_line_start text cursor
  line ← slice text start (length text)
  some (or_stay start (first_non_blank (length line) line 0))

unfoldable pub move_line_end_impl : Bool → Text → ℕ → Option ℕ
unfolding back_to_boundary
move_line_end_impl past_end text cursor = do
  end ← line_end text cursor
  some (if past_end || end == 0 then end else back_to_boundary text (end - 1))

-- move_line_end, move_line_end_insert
abbrev pub move_line_end : Text → ℕ → Option ℕ
move_line_end = move_line_end_impl false

abbrev pub move_line_end_insert : Text → ℕ → Option ℕ
move_line_end_insert = move_line_end_impl true

abbrev pub byte_is : (ℕ → Bool) → Option ℕ → Bool
byte_is p none = false
byte_is p (some b) = p b

-- `while pos < bytes.len() && p(bytes[pos]) { pos += 1 }`, with the bytes left as fuel
unfoldable pub skip_forward : ℕ → (ℕ → Bool) → Text → ℕ → ℕ
skip_forward zero p text pos = pos
skip_forward (suc fuel) p text pos =
    if byte_is p (get_elem? text pos) then skip_forward fuel p text (pos + 1) else pos

-- `while pos > 0 && p(bytes[pos - 1]) { pos -= 1 }`
unfoldable pub skip_backward : (ℕ → Bool) → Text → ℕ → ℕ
skip_backward p text zero = zero
skip_backward p text (suc pos) =
    if byte_is p (get_elem? text pos) then skip_backward p text pos else suc pos

abbrev pub is_word_byte : ℕ → Bool
is_word_byte b = not (is_ascii_whitespace b)

unfoldable pub move_word_forward : Text → ℕ → ℕ
unfolding skip_forward
move_word_forward text cursor =
    let after_word = skip_forward (length text - cursor) is_word_byte text cursor in
    skip_forward (length text - after_word) is_ascii_whitespace text after_word

unfoldable pub move_word_backward : Text → ℕ → ℕ
unfolding skip_backward
move_word_backward text cursor =
    skip_backward is_word_byte text (skip_backward is_ascii_whitespace text cursor)

unfoldable pub move_word_end : Text → ℕ → ℕ
unfolding skip_forward
move_word_end text cursor =
    let start = if ltb cursor (length text) then cursor + 1 else cursor in
    let word = skip_forward (length text - start) is_ascii_whitespace text start in
    let pos = skip_forward (length text - word) is_word_byte text word in
    if ltb (cursor + 1) pos then pos - 1 else pos

unfoldable pub move_up : Text → ℕ → Option ℕ
unfolding line_start
move_up text cursor = do
  start ← line_start text cursor
  if start == 0 then some cursor else do
    previous ← line_start text (start - 1)
    some (previous + min (cursor - start) (start - 1 - previous))

-- The end of the line that begins at `start`, and the same column of it, or its end.
abbrev pub down_to : Text → ℕ → ℕ → Option ℕ
down_to text col start =
    if leb (length text) start
    then some (length text)
    else do end ← line_end text start; some (start + min col (end - start))

abbrev pub down_from : Text → ℕ → ℕ → Option ℕ → Option ℕ
down_from text cursor col none = some cursor
down_from text cursor col (some i) = down_to text col (cursor + i + 1)

unfoldable pub move_down : Text → ℕ → Option ℕ
unfolding line_start line_end
move_down text cursor = do
  start ← line_start text cursor
  after ← slice text cursor (length text)
  down_from text cursor (cursor - start) (find_newline after)
