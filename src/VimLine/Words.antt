-- ===== src/VimLine/Words.antt =====
-- The word motions: how far they go and on what they stop.
use cem.Prelude.{
  ℕ, zero, suc, ◌+◌, ◌-◌, ◌≤◌, ◌<◌, ◌≡◌, refl, inl, inr, Bool, true, false, none, [], ◌∷◌, arith,
  ltb, ◌==◌, length, get_elem?, Bool-cases,
}
use cem.VimLine.Text.{Text, is_ascii_whitespace}
use cem.VimLine.Motion.{
  skip_forward, skip_backward, is_word_byte, byte_is, move_word_forward, move_word_backward,
}

-- Every byte of the text from one position up to another passes the test.
unfoldable pub Spans : (ℕ → Bool) → Text → ℕ → ℕ → Type 0
Spans p text from to = (i : ℕ) → from ≤ i → i < to → byte_is p (get_elem? text i) ≡ true

get_elem?-none : (text : Text) (i : ℕ) → length text ≤ i → get_elem? text i ≡ none
get_elem?-none [] i h = refl
get_elem?-none (b ∷ bs) zero h = absurd (omega arith)
get_elem?-none (b ∷ bs) (suc i) h = get_elem?-none bs i (omega arith)

-- The loop stops at the end of the text or at the first byte that fails the test.
pub skip_forward_lem :
    (fuel : ℕ) (p : ℕ → Bool) (text : Text) (pos : ℕ)
    → pos ≤ length text
    → length text ≤ fuel + pos
    → (pos ≤ skip_forward fuel p text pos)
      × (skip_forward fuel p text pos ≤ length text)
      × Spans p text pos (skip_forward fuel p text pos)
      × (byte_is p (get_elem? text (skip_forward fuel p text pos)) ≡ false)
unfolding skip_forward Spans
skip_forward_lem zero p text pos le enough = (
  omega arith,
  omega arith,
  λ i lo hi. absurd (omega arith),
  rw (get_elem?-none text pos (omega arith)) refl,
)
skip_forward_lem (suc fuel) p text pos le enough =
    elim (Bool-cases (byte_is p (get_elem? text pos))) [
      | inr stop ↦ rw stop (omega arith, omega arith, λ i lo hi. absurd (omega arith), stop)
      | inl go ↦ elim (Bool-cases (ltb pos (length text))) [
        | inr past ↦
            let nothing : get_elem? text pos ≡ none = get_elem?-none text pos (ground arith) in
            let stop : byte_is p (get_elem? text pos) ≡ false = rw nothing refl in cc
        | inl inside ↦
            let (from, to, all, stops) =
              skip_forward_lem fuel p text (pos + 1) (ground arith) (omega arith) in
            rw go (
              omega arith,
              to,
              λ i lo hi. elim (Bool-cases (i == pos)) [
                | inl e ↦ let same_as : i ≡ pos = ground arith in rw same_as go
                | inr e ↦ all i (ground arith) hi
              ],
              stops,
            )
      ]
    ]

pub skip_backward_lem :
    (p : ℕ → Bool) (text : Text) (pos : ℕ)
    → (skip_backward p text pos ≤ pos)
      × Spans p text (skip_backward p text pos) pos
      × ((q : ℕ) → skip_backward p text pos ≡ suc q → byte_is p (get_elem? text q) ≡ false)
unfolding skip_backward Spans
skip_backward_lem p text zero =
    (omega arith, λ i lo hi. absurd (omega arith), λ q e. absurd (omega arith))
skip_backward_lem p text (suc pos) = elim (Bool-cases (byte_is p (get_elem? text pos))) [
  | inr stop ↦ rw stop (
    omega arith,
    λ i lo hi. absurd (omega arith),
    λ q e. let same_as : q ≡ pos = omega arith in rw same_as stop,
  )
  | inl go ↦
      let (le, all, stops) = skip_backward_lem p text pos in
      rw go (
        omega arith,
        λ i lo hi. elim (Bool-cases (i == pos)) [
          | inl e ↦ let same_as : i ≡ pos = ground arith in rw same_as go
          | inr e ↦ all i lo (ground arith)
        ],
        stops,
      )
]

-- `w`: from a cursor within the text, over the rest of a word and then over blanks, to the first byte
-- after them that is no blank, or to the end of the text.
pub move_word_forward_lem :
    (text : Text) (cursor : ℕ)
    → cursor ≤ length text
    → (blank : ℕ) × (cursor ≤ blank)
      × (blank ≤ move_word_forward text cursor)
      × (move_word_forward text cursor ≤ length text)
      × Spans is_word_byte text cursor blank
      × Spans is_ascii_whitespace text blank (move_word_forward text cursor)
      × (byte_is is_word_byte (get_elem? text blank) ≡ false)
      × (byte_is is_ascii_whitespace (get_elem? text (move_word_forward text cursor)) ≡ false)
unfolding move_word_forward
move_word_forward_lem text cursor h =
    let (from, to, word, stops) =
      skip_forward_lem (length text - cursor) is_word_byte text cursor h (omega arith) in
    let after_word = skip_forward (length text - cursor) is_word_byte text cursor in
    let (from2, to2, blanks, stops2) =
      skip_forward_lem (length text - after_word) is_ascii_whitespace text after_word to
        (omega arith) in
    (after_word, from, from2, to2, word, blanks, stops, stops2)

pub move_word_backward_lem :
    (text : Text) (cursor : ℕ)
    → (last : ℕ) × (move_word_backward text cursor ≤ last)
      × (last ≤ cursor)
      × Spans is_word_byte text (move_word_backward text cursor) last
      × Spans is_ascii_whitespace text last cursor
      × ((q : ℕ)
          → move_word_backward text cursor ≡ suc q
          → byte_is is_word_byte (get_elem? text q) ≡ false)
unfolding move_word_backward
move_word_backward_lem text cursor =
    let (le, blanks, stops) = skip_backward_lem is_ascii_whitespace text cursor in
    let last = skip_backward is_ascii_whitespace text cursor in
    let (le2, word, stops2) = skip_backward_lem is_word_byte text last in
    (last, le2, le, word, blanks, stops2)
