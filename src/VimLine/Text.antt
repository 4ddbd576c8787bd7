-- ===== src/VimLine/Text.antt =====
-- What the editor uses of Rust's `str`: the bytes of a text, its character boundaries, slices, which
-- panic (`none`) out of range or inside a character, and searches for a newline.
use cem.Prelude.{
  ℕ, suc, ◌+◌, ◌-◌, ◌/◌, ◌%◌, ◌^◌, Bool, true, false, not, ◌&&◌, ◌||◌, Option, none, some, List, [],
  ◌∷◌, ltb, leb, ◌==◌, length, get_elem?, take, drop, if◌then◌else◌,
}

abbrev pub Text : Type 0
Text = List ℕ

abbrev pub newline : ℕ
newline = b'\n'

-- A byte that continues a character: 0b10xxxxxx.
abbrev pub is_continuation : ℕ → Bool
is_continuation b = leb 0x80 b && ltb b 0xC0

abbrev pub boundary_byte : Option ℕ → Bool
boundary_byte none = false
boundary_byte (some b) = not (is_continuation b)

-- `text.is_char_boundary(i)`
unfoldable pub is_char_boundary : Text → ℕ → Bool
is_char_boundary text i =
    if i == 0 then true else if i == length text then true else boundary_byte (get_elem? text i)

-- `&text[start..end]`
unfoldable pub slice : Text → ℕ → ℕ → Option Text
slice text start end =
    if leb start end
      && leb end (length text)
      && is_char_boundary text start
      && is_char_boundary text end
    then some (take (end - start) (drop start text))
    else none

-- `.find('\n')` and `.rfind('\n')`
unfoldable pub find_newline : Text → Option ℕ
find_newline [] = none
find_newline (b ∷ bs) =
    if b == newline then some 0 else elim (find_newline bs) [ none ↦ none | some i ↦ some (suc i) ]

unfoldable pub rfind_newline : Text → Option ℕ
rfind_newline [] = none
rfind_newline (b ∷ bs) = elim (rfind_newline bs) [
  | some i ↦ some (suc i)
  | none ↦ if b == newline then some 0 else none
]

-- `u8::is_ascii_whitespace`
unfoldable pub is_ascii_whitespace : ℕ → Bool
is_ascii_whitespace b = b == 32 || b == 9 || b == 10 || b == 12 || b == 13

abbrev in_range : ℕ → ℕ → ℕ → Bool
in_range lo hi b = leb lo b && leb b hi

-- How many bytes the first character has, if it is whitespace of Unicode, and 0 if it is not.
unfoldable pub blank_width : Text → ℕ
blank_width [] = 0
blank_width (b ∷ []) = if in_range 9 13 b || b == 32 then 1 else 0
blank_width (b ∷ c ∷ []) =
    if in_range 9 13 b || b == 32 then 1 else if b == 0xC2 && (c == 0x85 || c == 0xA0) then 2 else 0
blank_width (b ∷ c ∷ d ∷ _) =
    if in_range 9 13 b || b == 32
    then 1
    else if b == 0xC2 && (c == 0x85 || c == 0xA0)
    then 2
    else if b == 0xE1 && c == 0x9A && d == 0x80
        || b == 0xE2 && c == 0x80 && (in_range 0x80 0x8A d || d == 0xA8 || d == 0xA9 || d == 0xAF)
        || b == 0xE2 && c == 0x81 && d == 0x9F
        || b == 0xE3 && c == 0x80 && d == 0x80
    then 3
    else 0

-- `c.to_string()`, by the UTF-8 encoding; `c.len_utf8()` is its length.
unfoldable pub encode_utf8 : ℕ → Text
encode_utf8 c =
    if ltb c 0x80
    then c ∷ []
    else if ltb c 0x800
    then (0xC0 + c / 2 ^ 6) ∷ (0x80 + c % 2 ^ 6) ∷ []
    else if ltb c 0x10000
    then (0xE0 + c / 2 ^ 12) ∷ (0x80 + c / 2 ^ 6 % 2 ^ 6) ∷ (0x80 + c % 2 ^ 6) ∷ []
    else (0xF0 + c / 2 ^ 18)
      ∷ (0x80 + c / 2 ^ 12 % 2 ^ 6)
      ∷ (0x80 + c / 2 ^ 6 % 2 ^ 6)
      ∷ (0x80 + c % 2 ^ 6)
      ∷ []
