-- ===== src/VimLine/Answered.antt =====
-- On a text of ASCII characters the deletions, the operators and the bracket motion answer.
use cem.Prelude.{
  ℕ, ◌+◌, ◌-◌, ◌≤◌, ◌<◌, ◌≡◌, refl, inl, inr, ◌&&◌, Option, some, arith, ltb, leb, ◌==◌, length,
  get_elem?, take, drop, Bool-cases, Option-cases, length-take, length-drop,
}
use cem.VimLine.Text.{Text, find_newline}
use cem.VimLine.Editor.{VimLineEditor, Operator, change, yank}
use cem.VimLine.Bracket.{
  Bracket, opening, closing, no_bracket, jump, bracket, find_matching_forward,
  find_matching_backward, move_to_matching_bracket,
}
use cem.VimLine.Change.{
  Reply, char_end, delete_char, delete_to_end, line_end_after, line_range, delete_line,
  apply_operator, apply_operator_line,
}
use cem.VimLine.Normal.{moved}
use cem.VimLine.Boundaries.{next_boundary_lem}
use cem.VimLine.Ascii.{IsAscii, slice-ascii, find_newline-lt}
use cem.VimLine.Lands.{Lands, line_start_lem, line_end_lem}

-- The handler answers.
abbrev pub Answered : Option Reply → Type 0
Answered o = (r : Reply) × (o ≡ some r)

pub moved-Answered :
    (text : Text) (e : VimLineEditor) (o : Option ℕ) → Lands text o → Answered (moved e o)
moved-Answered text e o (to, found, le) = rw found (_, refl)

module _ (text : Text) (ascii : IsAscii text) where
  pub apply_operator-Answered :
      (op : Operator) (e : VimLineEditor) (start stop : ℕ)
      → start ≤ stop
      → stop ≤ length text
      → Answered (apply_operator op e start stop text)
  unfolding apply_operator
  apply_operator-Answered op e start stop ordered inside =
      rw (slice-ascii text ascii start stop ordered inside) (_, refl)

  line_end_after_lem :
      (c : ℕ)
      → c ≤ length text
      → (stop : ℕ) × (line_end_after text c ≡ some stop) × (c ≤ stop) × (stop ≤ length text)
  unfolding line_end_after
  line_end_after_lem c here =
      let after = take (length text - c) (drop c text) in
      let size : length after ≡ length text - c =
        omega (arith, length-take (length text - c) (drop c text), length-drop c text) in
      elim (Option-cases (find_newline after)) [
        | inl nowhere ↦ (
          length text,
          rw (slice-ascii text ascii c (length text) here (omega arith), nowhere) refl,
          here,
          omega arith,
        )
        | inr (i, found) ↦ (
          c + 1 + i,
          rw (slice-ascii text ascii c (length text) here (omega arith), found) refl,
          omega arith,
          omega (arith, size, find_newline-lt after i found),
        )
      ]

  line_range-ordered :
      (start stop : ℕ)
      → start ≤ stop
      → stop ≤ length text
      → ((line_range text start stop).0 ≤ (line_range text start stop).1)
        × ((line_range text start stop).1 ≤ length text)
  line_range-ordered start stop ordered inside =
      elim (Bool-cases (start == 0 && stop == length text)) [
        | inl whole ↦ rw whole (omega arith, omega arith)
        | inr part ↦ elim (Bool-cases (stop == length text && ltb 0 start)) [
          | inl last ↦ rw (part, last) (omega arith, omega arith)
          | inr inner ↦ rw (part, inner) (ordered, inside)
        ]
      ]

  delete_line-Answered :
      (e : VimLineEditor) → e.cursor ≤ length text → Answered (delete_line e text)
  unfolding delete_line
  delete_line-Answered e here =
      let (start, found, le) = line_start_lem text ascii e.cursor here in
      let (stop, found_stop, from, to) = line_end_after_lem e.cursor here in
      let (ordered, inside) = line_range-ordered start stop (omega arith) to in
      rw (found, found_stop)
        (rw
          (slice-ascii text ascii (line_range text start stop).0 (line_range text start stop).1
            ordered inside)
          (_, refl))

  pub apply_operator_line-Answered :
      (op : Operator) (e : VimLineEditor)
      → e.cursor ≤ length text
      → Answered (apply_operator_line op e text)
  unfolding apply_operator_line
  apply_operator_line-Answered Operator.delete e here = delete_line-Answered e here
  apply_operator_line-Answered change e here =
      let (r, eq) = delete_line-Answered e here in rw eq (_, refl)
  apply_operator_line-Answered yank e here =
      let (start, found, le) = line_start_lem text ascii e.cursor here in
      let (stop, found_stop, from, to) = line_end_after_lem e.cursor here in
      rw (found, found_stop) (rw (slice-ascii text ascii start stop (omega arith) to) (_, refl))

  pub delete_char-Answered : (e : VimLineEditor) → Answered (delete_char e text)
  unfolding delete_char char_end
  delete_char-Answered e = elim (Bool-cases (leb (length text) e.cursor)) [
    | inl last ↦ rw last (_, refl)
    | inr inside ↦
        let (from, to, on, between) =
          next_boundary_lem (length text - (e.cursor + 1)) text (e.cursor + 1) (ground arith)
            (omega arith) in
        rw (inside, slice-ascii text ascii e.cursor (char_end text e.cursor) (omega arith) to)
          (_, refl)
  ]

  pub delete_to_end-Answered :
      (e : VimLineEditor) → e.cursor ≤ length text → Answered (delete_to_end e text)
  unfolding delete_to_end
  delete_to_end-Answered e here =
      let (stop, found, from, to) = line_end_lem text ascii e.cursor here in
      elim (Bool-cases (leb stop e.cursor)) [
        | inl nothing ↦ rw (found, nothing) (_, refl)
        | inr some_text ↦
            rw (found, some_text, slice-ascii text ascii e.cursor stop from to) (_, refl)
      ]

  jump-some : (b : Bracket) (c : ℕ) → c < length text → (to : ℕ) × (jump text c b ≡ some to)
  unfolding find_matching_forward find_matching_backward
  jump-some no_bracket c h = (c, refl)
  jump-some (opening o k) c h =
      rw (slice-ascii text ascii (c + 1) (length text) (omega arith) (omega arith)) (_, refl)
  jump-some (closing o k) c h =
      rw (slice-ascii text ascii 0 c (omega arith) (omega arith)) (_, refl)

  pub matching-Answered :
      (e : VimLineEditor)
      → e.cursor ≤ length text
      → Answered (moved e (move_to_matching_bracket text e.cursor))
  unfolding move_to_matching_bracket
  matching-Answered e here = elim (Bool-cases (leb (length text) e.cursor)) [
    | inl last ↦ rw last (_, refl)
    | inr inside ↦
        let after = take (length text - e.cursor) (drop e.cursor text) in
        let (to, found) = jump-some (bracket (get_elem? after 0)) e.cursor (ground arith) in
        rw (inside, slice-ascii text ascii e.cursor (length text) here (omega arith), found)
          (_, refl)
  ]
